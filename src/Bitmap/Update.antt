-- ===== src/Bitmap/Update.antt =====
-- What the functions of winix/bitmap.c that write a bitmap do to each page.
use winix.Prelude.{
  ℕ, zero, suc, ◌+◌, ◌-◌, ◌*◌, ◌/◌, ◌%◌, ◌≤◌, ◌<◌, ◌≡◌, refl, ap, ◌∙◌, inl, inr, Bool, true, false,
  not, ◌&&◌, ◌||◌, List, [], ◌∷◌, arith, ltb, leb, ◌==◌, if◌then◌else◌, Bool-cases, length, get_or,
  bit_xor, length-set, bit-zero, bit-ones, bit-bit_xor, lt→ltb,
}
use mathlib.Core.Bool.{xor}
use winix.Errno.{ok, err}
use winix.Bitmap.{
  or_mask, and_not_mask, set_loop, clear_loop, bitmap_set_bit, bitmap_clear_bit, bitmap_set_nbits,
  bitmap_clear_nbits, fill_with, bitmap_clear, bitmap_fill, bitmap_xor,
}
use winix.Bitmap.Masks.{page_on, page_on_outside, page_on-or_mask, page_on-and_not_mask}

-- `p` is one of the `n` pages from `start` on.
abbrev pub in_range : (start n p : ℕ) → Bool
in_range start n p = leb start p && ltb p (start + n)

length-or_mask : (map : List ℕ) (pos : ℕ) → length (or_mask map pos) ≡ length map
length-or_mask map pos = length-set map (pos / 32) _

length-and_not_mask : (map : List ℕ) (pos : ℕ) → length (and_not_mask map pos) ≡ length map
length-and_not_mask map pos = length-set map (pos / 32) _

length-set_loop : (n start : ℕ) (map : List ℕ) → length (set_loop n start map) ≡ length map
unfolding set_loop
length-set_loop zero start map = refl
length-set_loop (suc n) start map =
    length-set_loop n (start + 1) (or_mask map start) ∙ length-or_mask map start

length-clear_loop : (n start : ℕ) (map : List ℕ) → length (clear_loop n start map) ≡ length map
unfolding clear_loop
length-clear_loop zero start map = refl
length-clear_loop (suc n) start map =
    length-clear_loop n (start + 1) (and_not_mask map start) ∙ length-and_not_mask map start

page_on-set_loop :
    (n start : ℕ) (map : List ℕ) (p : ℕ)
    → start + n ≤ length map * 32
    → page_on (set_loop n start map) p ≡ (in_range start n p || page_on map p)
unfolding set_loop
page_on-set_loop zero start map p h = ground arith
page_on-set_loop (suc n) start map p h =
    let l : start + 1 + n ≤ length (or_mask map start) * 32 =
      omega (arith, length-or_mask map start) in
    rw
      (
        page_on-set_loop n (start + 1) (or_mask map start) p l,
        page_on-or_mask map start (omega arith) p,
      )
      (ground arith)

page_on-clear_loop :
    (n start : ℕ) (map : List ℕ) (p : ℕ)
    → start + n ≤ length map * 32
    → page_on (clear_loop n start map) p ≡ (not (in_range start n p) && page_on map p)
unfolding clear_loop
page_on-clear_loop zero start map p h = ground arith
page_on-clear_loop (suc n) start map p h =
    let l : start + 1 + n ≤ length (and_not_mask map start) * 32 =
      omega (arith, length-and_not_mask map start) in
    rw
      (
        page_on-clear_loop n (start + 1) (and_not_mask map start) p l,
        page_on-and_not_mask map start (omega arith) p,
      )
      (ground arith)

-- The guard that both functions share: the range must end before the last page of the bitmap.
abbrev pub fits : (map_len start n : ℕ) → Bool
fits map_len start n = ltb (start + n) (map_len * 32)

module _ (map : List ℕ) (map_len : ℕ) (array : length map ≡ map_len) where
  -- `bitmap_set_nbits` accepts a range exactly when it ends before the last page; it then marks
  -- the pages of the range and no other, and a refused call changes nothing. The length stays.
  pub bitmap_set_nbits-page_on :
      (start n p : ℕ)
      → let (status, map') = bitmap_set_nbits map map_len start n in
        (status ≡ (if fits map_len start n then ok else err))
        × (page_on map' p ≡ (fits map_len start n && in_range start n p || page_on map p))
        × (length map' ≡ map_len)
  unfolding bitmap_set_nbits
  bitmap_set_nbits-page_on start n p =
      ground (arith, page_on-set_loop n start map p, length-set_loop n start map)

  -- `bitmap_clear_nbits` accepts the same ranges; it then frees the pages of the range and no
  -- other, and a refused call changes nothing. The length stays.
  pub bitmap_clear_nbits-page_on :
      (start n p : ℕ)
      → let (status, map') = bitmap_clear_nbits map map_len start n in
        (status ≡ (if fits map_len start n then ok else err))
        × (page_on map' p ≡ (not (fits map_len start n && in_range start n p) && page_on map p))
        × (length map' ≡ map_len)
  unfolding bitmap_clear_nbits
  bitmap_clear_nbits-page_on start n p =
      ground (arith, page_on-clear_loop n start map p, length-clear_loop n start map)

  -- `bitmap_set_bit` and `bitmap_clear_bit` accept every page of the bitmap, the last one
  -- included, and change that page alone; a page past the end is refused and nothing changes.
  pub bitmap_bit-page_on :
      (pos p : ℕ)
      → let (set_status, set_map) = bitmap_set_bit map map_len pos in
        let (clear_status, clear_map) = bitmap_clear_bit map map_len pos in
        let inside = ltb pos (map_len * 32) in
        (set_status ≡ (if inside then ok else err))
        × (clear_status ≡ (if inside then ok else err))
        × (page_on set_map p ≡ (inside && (p == pos) || page_on map p))
        × (page_on clear_map p ≡ (not (inside && (p == pos)) && page_on map p))
        × (length set_map ≡ map_len)
  unfolding bitmap_set_bit bitmap_clear_bit
  bitmap_bit-page_on pos p = elim (Bool-cases (ltb pos (map_len * 32))) [
    | inl e ↦
        let inside : pos / 32 < length map = ground arith in
        ground (
          arith,
          page_on-or_mask map pos inside p,
          page_on-and_not_mask map pos inside p,
          length-or_mask map pos,
        )
    | inr e ↦ ground arith
  ]

-- Marking a range of free pages and freeing it again leaves every page as it was.
pub clear_nbits-set_nbits :
    (map : List ℕ) (map_len start n p : ℕ)
    → length map ≡ map_len
    → ((q : ℕ) → in_range start n q ≡ true → page_on map q ≡ false)
    → page_on (bitmap_clear_nbits (bitmap_set_nbits map map_len start n).1 map_len start n).1 p
      ≡ page_on map p
clear_nbits-set_nbits map map_len start n p array free =
    let marked = bitmap_set_nbits-page_on map map_len array start n p in
    let freed =
      bitmap_clear_nbits-page_on (bitmap_set_nbits map map_len start n).1 map_len marked.2 start n
        p in
    rw (freed.1, marked.1) (ground (arith, free p))

get_or-fill_with :
    (w : ℕ) (map : List ℕ) (n i : ℕ)
    → get_or (fill_with w map n) i 0 ≡ (if ltb i n && ltb i (length map) then w else get_or map i 0)
unfolding fill_with
get_or-fill_with w [] n i = ground arith
get_or-fill_with w (x ∷ map) zero i = ground arith
get_or-fill_with w (x ∷ map) (suc n) zero = ground arith
get_or-fill_with w (x ∷ map) (suc n) (suc i) = ground (arith, get_or-fill_with w map n i)

-- `bitmap_clear` frees and `bitmap_fill` marks exactly the pages of the first `n` words.
pub bitmap_fill-page_on :
    (map : List ℕ) (n p : ℕ)
    → n ≤ length map
    → (page_on (bitmap_clear map n) p ≡ (not (ltb p (n * 32)) && page_on map p))
      × (page_on (bitmap_fill map n) p ≡ (ltb p (n * 32) || page_on map p))
unfolding bitmap_clear bitmap_fill page_on
bitmap_fill-page_on map n p h = (
  rw (get_or-fill_with 0 map n (p / 32)) (elim (Bool-cases (ltb (p / 32) n)) [
    | inl e ↦
        rw (lt→ltb (p / 32) (length map) (ground arith), e) (ground (arith, bit-zero (31 - p % 32)))
    | inr e ↦ rw e (ground arith)
  ]),
  rw (get_or-fill_with 0xffff_ffff map n (p / 32)) (elim (Bool-cases (ltb (p / 32) n)) [
    | inl e ↦
        rw (lt→ltb (p / 32) (length map) (ground arith), e, bit-ones 32 (31 - p % 32))
          (ground arith)
    | inr e ↦ rw e (ground arith)
  ]),
)

get_or-bitmap_xor :
    (a b : List ℕ) (n i : ℕ)
    → length a ≡ n
    → length b ≡ n
    → get_or (bitmap_xor a b n) i 0 ≡ bit_xor (get_or a i 0) (get_or b i 0)
unfolding bitmap_xor
get_or-bitmap_xor [] [] n i h k = refl
get_or-bitmap_xor [] (y ∷ b) n i h k = absurd (omega arith)
get_or-bitmap_xor (x ∷ a) b zero i h k = absurd (omega arith)
get_or-bitmap_xor (x ∷ a) [] (suc n) i h k = absurd (omega arith)
get_or-bitmap_xor (x ∷ a) (y ∷ b) (suc n) zero h k = refl
get_or-bitmap_xor (x ∷ a) (y ∷ b) (suc n) (suc i) h k =
    get_or-bitmap_xor a b n i (omega arith) (omega arith)

length-bitmap_xor : (a b : List ℕ) (n : ℕ) → length (bitmap_xor a b n) ≡ length a
unfolding bitmap_xor
length-bitmap_xor [] b n = refl
length-bitmap_xor (x ∷ a) b zero = refl
length-bitmap_xor (x ∷ a) [] (suc n) = refl
length-bitmap_xor (x ∷ a) (y ∷ b) (suc n) = ap suc (length-bitmap_xor a b n)

page_on-bitmap_xor :
    (a b : List ℕ) (n p : ℕ)
    → length a ≡ n
    → length b ≡ n
    → page_on (bitmap_xor a b n) p ≡ xor (page_on a p) (page_on b p)
unfolding page_on
page_on-bitmap_xor a b n p h k =
    rw (get_or-bitmap_xor a b n (p / 32) h k)
      (bit-bit_xor (get_or a (p / 32) 0) (get_or b (p / 32) 0) (31 - p % 32))

-- `bitmap_xor` of two bitmaps of one length twice leaves every page of the first as it was.
pub bitmap_xor_twice :
    (a b : List ℕ) (n p : ℕ)
    → length a ≡ n
    → length b ≡ n
    → page_on (bitmap_xor (bitmap_xor a b n) b n) p ≡ page_on a p
unfolding xor
bitmap_xor_twice a b n p h k =
    rw
      (
        page_on-bitmap_xor (bitmap_xor a b n) b n p (length-bitmap_xor a b n ∙ h) k,
        page_on-bitmap_xor a b n p h k,
      )
      (ground arith)

length-fill_with : (w : ℕ) (map : List ℕ) (n : ℕ) → length (fill_with w map n) ≡ length map
unfolding fill_with
length-fill_with w [] n = refl
length-fill_with w (x ∷ map) zero = refl
length-fill_with w (x ∷ map) (suc n) = ap suc (length-fill_with w map n)

pub length-bitmap_clear : (map : List ℕ) (n : ℕ) → length (bitmap_clear map n) ≡ length map
unfolding bitmap_clear
length-bitmap_clear map n = length-fill_with 0 map n

-- Cleared whole, a bitmap has no page marked.
pub bitmap_clear_all :
    (map : List ℕ) (n p : ℕ) → length map ≡ n → page_on (bitmap_clear map n) p ≡ false
bitmap_clear_all map n p h = elim (Bool-cases (ltb p (n * 32))) [
  | inl e ↦ rw ((bitmap_fill-page_on map n p (omega arith)).0, e) refl
  | inr e ↦
      rw ((bitmap_fill-page_on map n p (omega arith)).0, e) (page_on_outside map p (ground arith))
]
