-- ===== src/Bitmap/Masks.antt =====
-- The table of masks of winix/bitmap.c, and the view of a bitmap as one truth value for each page.
use winix.Prelude.{
  bit_or, bit_and, false, set, [], ◌∷◌, ◌≤◌, bit-zero, some, none, ltb, ℕ, zero, suc, ◌+◌, ◌-◌, ◌*◌,
  ◌/◌, ◌%◌, ◌^◌, ◌<◌, ◌≡◌, refl, ap, inl, inr, Bool, true, not, ◌&&◌, ◌||◌, List, arith, ◌==◌,
  ==_iff, if◌then◌else◌, Bool-cases, length, get_or, get_or-set, bit, bit-bit_or, bit-bit_and,
  bit-pow, bit-not_pow, bit_and-pow_is_zero,
}
use winix.Bitmap.{is_bit_on, complement, mask, is_clear, or_mask, and_not_mask}

-- Whether page `p` is marked in the bitmap: page 0 has the highest bit of the first word.
unfoldable pub page_on : List ℕ → ℕ → Bool
page_on map p = bit (get_or map (p / 32) 0) (31 - p % 32)

-- A property of every number below `n`, by evaluation.
holds_below : ℕ → (ℕ → Bool) → Bool
holds_below zero p = true
holds_below (suc n) p = p n && holds_below n p

holds_below_at : (n : ℕ) (p : ℕ → Bool) (x : ℕ) → holds_below n p ≡ true → x < n → p x ≡ true
unfolding holds_below
holds_below_at zero p x h lt = absurd (omega arith)
holds_below_at (suc n) p x h lt = ground (arith, holds_below_at n p x)

mask_table : holds_below 32 (λ j. mask j == 2 ^ (31 - j)) ≡ true
unfolding holds_below mask
mask_table = refl

-- `mask[j]` has exactly the bit of weight 2 ^ (31 - j), as the comment in the source lists them.
pub mask-eq-pow : (j : ℕ) → j < 32 → mask j ≡ 2 ^ (31 - j)
mask-eq-pow j h = (==_iff _ _).0 (holds_below_at 32 _ j mask_table h)

-- The test of the loops, `(map[i] & mask[j]) == 0`, in terms of pages.
pub is_clear-page_on :
    (map : List ℕ) (i j : ℕ) → j < 32 → is_clear map i j ≡ not (page_on map (i * 32 + j))
unfolding page_on
is_clear-page_on map i j h =
    let d : (i * 32 + j) / 32 ≡ i = omega arith in
    let m : (i * 32 + j) % 32 ≡ j = omega arith in
    rw (mask-eq-pow j h, d, m) (bit_and-pow_is_zero (get_or map i 0) (31 - j))

-- A write to the word of `pos` is seen by the pages of that word alone.
page_on-set :
    (map : List ℕ) (i v p : ℕ)
    → i < length map
    → page_on (set map i v) p ≡ (if p / 32 == i then bit v (31 - p % 32) else page_on map p)
unfolding page_on
page_on-set map i v p h = elim (Bool-cases (p / 32 == i)) [
  | inl e ↦ rw (get_or-set map i (p / 32) v 0 h, e)
  | inr e ↦ rw (get_or-set map i (p / 32) v 0 h, e)
]

module _ (map : List ℕ) (pos : ℕ) (inside : pos / 32 < length map) (p : ℕ) where
  word : ℕ
  word = get_or map (pos / 32) 0

  -- Within one word two positions are the same if their bits are.
  same_bit : (p / 32 == pos / 32) ≡ true → (31 - p % 32 == 31 - pos % 32) ≡ (p == pos)
  same_bit e = ground arith

  other_word : (p / 32 == pos / 32) ≡ false → (p == pos) ≡ false
  other_word e = ground arith

  same_word : (p / 32 == pos / 32) ≡ true → bit word (31 - p % 32) ≡ page_on map p
  unfolding page_on word
  same_word e = let e' : p / 32 ≡ pos / 32 = (==_iff _ _).0 e in rw e'

  -- Setting the mask of a position marks its page and no other.
  pub page_on-or_mask : page_on (or_mask map pos) p ≡ (p == pos || page_on map p)
  unfolding word
  page_on-or_mask = elim (Bool-cases (p / 32 == pos / 32)) [
    | inl e ↦
        rw
          (
            page_on-set map (pos / 32) (bit_or word (mask (pos % 32))) p inside,
            e,
            mask-eq-pow (pos % 32) (omega arith),
            bit-bit_or word (2 ^ (31 - pos % 32)) (31 - p % 32),
            bit-pow (31 - pos % 32) (31 - p % 32),
            same_bit e,
            same_word e,
          )
          (ground arith)
    | inr e ↦
        rw (page_on-set map (pos / 32) (bit_or word (mask (pos % 32))) p inside, e, other_word e)
          refl
  ]

  -- Clearing it frees its page and no other.
  pub page_on-and_not_mask : page_on (and_not_mask map pos) p ≡ (not (p == pos) && page_on map p)
  unfolding word
  page_on-and_not_mask = elim (Bool-cases (p / 32 == pos / 32)) [
    | inl e ↦
        rw
          (
            page_on-set map (pos / 32) (bit_and word (complement (mask (pos % 32)))) p inside,
            e,
            mask-eq-pow (pos % 32) (omega arith),
            bit-bit_and word (complement (2 ^ (31 - pos % 32))) (31 - p % 32),
            bit-not_pow 32 (31 - pos % 32) (31 - p % 32) (omega arith),
            same_bit e,
            same_word e,
          )
          (ground arith)
    | inr e ↦
        rw
          (
            page_on-set map (pos / 32) (bit_and word (complement (mask (pos % 32)))) p inside,
            e,
            other_word e,
          )
          refl
  ]

-- `is_bit_on` answers whether the page is marked for a page of the bitmap, and no for a position
-- past its end; at the position just past the end, `map_len * 32`, it reads outside the array.
pub is_bit_on-page_on :
    (map : List ℕ) (map_len pos : ℕ)
    → is_bit_on map map_len pos ≡ (
        if ltb pos (map_len * 32)
        then some (page_on map pos)
        else if pos == map_len * 32
        then none
        else some false)
unfolding is_bit_on
is_bit_on-page_on map map_len pos =
    let e : pos / 32 * 32 + pos % 32 ≡ pos = omega arith in
    let on = is_clear-page_on map (pos / 32) (pos % 32) (omega arith) in
    ground (arith, on, ap (page_on map) e)

get_or_outside : (map : List ℕ) (i : ℕ) → length map ≤ i → get_or map i 0 ≡ 0
get_or_outside [] i h = refl
get_or_outside (x ∷ map) zero h = absurd (omega arith)
get_or_outside (x ∷ map) (suc i) h = get_or_outside map i (omega arith)

pub page_on_outside : (map : List ℕ) (p : ℕ) → length map * 32 ≤ p → page_on map p ≡ false
unfolding page_on
page_on_outside map p h = rw (get_or_outside map (p / 32) (omega arith)) (bit-zero (31 - p % 32))
