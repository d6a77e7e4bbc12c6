-- ===== src/Bitmap/Tests.antt =====
-- The functions of winix/bitmap.c at concrete bitmaps, and the theorems there.
use winix.Prelude.{ℕ, ◌≡◌, refl, true, false, List, [], ◌∷◌, none, some, arith}
use winix.Errno.{ok, err}
use winix.Bitmap.{
  mask, bitmap_search_from, bitmap_search_reverse, bitmap_set_nbits, bitmap_clear_nbits, count_bits,
  is_bit_on, one_bits, zero_bits,
}
use winix.Bitmap.Search.{FindsFirst, bitmap_search_from-FindsFirst}
use winix.Bitmap.Reverse.{FindsLast, bitmap_search_reverse-FindsLast}

-- Pages 0 to 3 and 127 are marked, as after a boot with a kernel of four pages.
abbrev map : List ℕ
map = 0xf000_0000 ∷ 0 ∷ 0 ∷ 1 ∷ []

searches :
    (bitmap_search_from map 4 4 3 ≡ some 4)
    × (bitmap_search_from map 4 0 3 ≡ some 4)
    × (bitmap_search_reverse map 4 3 ≡ some 124)
    × (bitmap_search_from map 4 4 124 ≡ none)
unfolding bitmap_search_from bitmap_search_reverse mask
searches = (refl, refl, refl, refl)

-- A free bitmap of one word has room for 32 pages, but 32 are refused.
whole_word :
    (bitmap_search_from (0 ∷ []) 1 0 31 ≡ some 0) × (bitmap_search_from (0 ∷ []) 1 0 32 ≡ none)
unfolding bitmap_search_from mask
whole_word = (refl, refl)

updates :
    (bitmap_set_nbits map 4 30 4 ≡ (ok, 0xf000_0003 ∷ 0xc000_0000 ∷ 0 ∷ 1 ∷ []))
    × (bitmap_clear_nbits map 4 1 2 ≡ (ok, 0x9000_0000 ∷ 0 ∷ 0 ∷ 1 ∷ []))
    × (bitmap_set_nbits map 4 120 8 ≡ (err, map))
unfolding bitmap_set_nbits bitmap_clear_nbits mask
updates = (refl, refl, refl)

counts : (count_bits map 4 one_bits ≡ some 5) × (count_bits map 4 zero_bits ≡ some 123)
unfolding count_bits mask
counts = (refl, refl)

is_bit_on_runs :
    (is_bit_on map 4 127 ≡ some true)
    × (is_bit_on map 4 128 ≡ none)
    × (is_bit_on map 4 129 ≡ some false)
unfolding is_bit_on mask
is_bit_on_runs = (refl, refl, refl)

bitmap_search_from_example : FindsFirst map 4 3 128 (bitmap_search_from map 4 4 3)
bitmap_search_from_example =
    bitmap_search_from-FindsFirst map 4 3 4 (omega arith) (omega arith) (omega arith)

bitmap_search_reverse_example : FindsLast map 3 128 (bitmap_search_reverse map 4 3)
bitmap_search_reverse_example = bitmap_search_reverse-FindsLast map 4 3 (omega arith) (omega arith)
