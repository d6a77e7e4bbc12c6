-- ===== src/Bitmap/Count.antt =====
-- `count_bits` counts the pages that are marked, or those that are free.
use winix.Prelude.{
  ℕ, zero, suc, ◌+◌, ◌-◌, ◌*◌, ◌/◌, ◌%◌, ◌<◌, ◌≡◌, refl, ap, Bool, true, false, not, List, some,
  none, arith, ◌==◌, if◌then◌else◌, get_or, bit_and, ◌≢◌, pow-bit_and_is_zero,
}
use winix.Bitmap.{mask, count_word, count_words, count_bits, one_bits, zero_bits}
use winix.Bitmap.Masks.{page_on, mask-eq-pow}

-- How many of the `n` pages from `p` on are marked (for `true`) or free (for `false`).
unfoldable pub marks : Bool → List ℕ → (p n : ℕ) → ℕ
marks ones map p zero = 0
marks ones map p (suc n) =
    (if page_on map p then (if ones then 1 else 0) else (if ones then 0 else 1))
    + marks ones map (p + 1) n

unit_bit :
    (map : List ℕ) (i j : ℕ)
    → j < 32
    → (bit_and (mask j) (get_or map i 0) == 0) ≡ not (page_on map (i * 32 + j))
unfolding page_on
unit_bit map i j h =
    let d : (i * 32 + j) / 32 ≡ i = omega arith in
    let m : (i * 32 + j) % 32 ≡ j = omega arith in
    rw (mask-eq-pow j h, d, m) (pow-bit_and_is_zero (get_or map i 0) (31 - j))

marks_add :
    (ones : Bool) (map : List ℕ) (p n m : ℕ)
    → marks ones map p (n + m) ≡ marks ones map p n + marks ones map (p + n) m
unfolding marks
marks_add ones map p zero m =
    let e : zero + m ≡ m = omega arith in let f : p + 0 ≡ p = omega arith in rw (e, f) (omega arith)
marks_add ones map p (suc n) m =
    let e : suc n + m ≡ suc (n + m) = omega arith in
    let f : p + suc n ≡ p + 1 + n = omega arith in
    rw (e, f, marks_add ones map (p + 1) n m) (omega arith)

count_word-marks :
    (ones : Bool) (map : List ℕ) (i n j count : ℕ)
    → j + n ≡ 32
    → count_word ones (get_or map i 0) n j count ≡ count + marks ones map (i * 32 + j) n
unfolding count_word marks
count_word-marks ones map i zero j count h = omega arith
count_word-marks ones map i (suc n) j count h =
    let next : i * 32 + (j + 1) ≡ i * 32 + j + 1 = omega arith in
    rw (count_word-marks ones map i n (j + 1) _ (omega arith), unit_bit map i j (omega arith), next)
      (ground arith)

count_words-marks :
    (ones : Bool) (map : List ℕ) (n i count : ℕ)
    → count_words ones map n i count ≡ count + marks ones map (i * 32) (n * 32)
unfolding count_words
count_words-marks ones map zero i count = unfold marks in omega arith
count_words-marks ones map (suc n) i count =
    let first : i * 32 + 0 ≡ i * 32 = omega arith in
    let size : suc n * 32 ≡ 32 + n * 32 = omega arith in
    let next : (i + 1) * 32 ≡ i * 32 + 32 = omega arith in
    rw (size, marks_add ones map (i * 32) 32 (n * 32), count_words-marks ones map n (i + 1) _, next)
      (omega
        (arith, count_word-marks ones map i 32 0 count refl, ap (λ t. marks ones map t 32) first))

marks_both : (map : List ℕ) (p n : ℕ) → marks true map p n + marks false map p n ≡ n
unfolding marks
marks_both map p zero = refl
marks_both map p (suc n) = ground (arith, marks_both map (p + 1) n)

-- `count_bits` returns the number of marked pages for ONE_BITS, the number of free pages for
-- ZERO_BITS, which together are all the pages of the bitmap, and `none` (ERR) for any other flags.
pub count_bits-marks :
    (map : List ℕ) (map_len : ℕ)
    → (count_bits map map_len one_bits ≡ some (marks true map 0 (map_len * 32)))
      × (count_bits map map_len zero_bits ≡ some (marks false map 0 (map_len * 32)))
      × (marks true map 0 (map_len * 32) + marks false map 0 (map_len * 32) ≡ map_len * 32)
      × ((flags : ℕ) → flags ≢ one_bits → flags ≢ zero_bits → count_bits map map_len flags ≡ none)
unfolding count_bits
count_bits-marks map map_len = (
  ap some (omega (arith, count_words-marks true map map_len 0 0)),
  ap some (omega (arith, count_words-marks false map map_len 0 0)),
  marks_both map 0 (map_len * 32),
  λ flags a b. ground arith,
)
