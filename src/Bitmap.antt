-- ===== src/Bitmap.antt =====
-- winix/bitmap.c: bitmaps of pages over arrays of 32-bit words, the first page in the highest bit.
-- An `unsigned int *map` is the list of its words and `map_len` is passed beside it, as in the
-- code; a function that writes through `map` returns the new list. Positions and lengths are
-- not negative. A read past the list gives 0 and a write there changes nothing: the theorems ask
-- that the list has `map_len` words.
pub mod Masks
pub mod Update
pub mod Search
pub mod Reverse
pub mod Count
mod Tests
use winix.Prelude.{
  ℕ, zero, suc, ◌+◌, ◌-◌, ◌*◌, ◌/◌, ◌%◌, ◌^◌, bit_and, bit_or, bit_xor, Bool, true, false, not,
  ◌&&◌, List, [], ◌∷◌, Option, none, some, ltb, leb, ◌==◌, if◌then◌else◌, get_or, set,
}
use winix.Errno.{Errno, ok, err}

abbrev pub bitmask_nr : ℕ
bitmask_nr = 32

-- `init_bitmap` fills the table from its end, each mask twice the next one.
fill_masks : ℕ → List ℕ → List ℕ
fill_masks zero masks = masks
fill_masks (suc n) masks = fill_masks n ((get_or masks 0 0 * 2 % 2 ^ 32) ∷ masks)

pub init_bitmap : List ℕ
unfolding fill_masks
init_bitmap = fill_masks (bitmask_nr - 1) (1 ∷ [])

-- `mask[j]`
unfoldable pub mask : ℕ → ℕ
unfolding init_bitmap
mask j = get_or init_bitmap j 0

-- `~w` on an `unsigned int`
abbrev pub complement : ℕ → ℕ
complement w = bit_xor (2 ^ 32 - 1) w

-- The loops that write a constant to `map[0 .. map_len)`.
fill_with : ℕ → List ℕ → ℕ → List ℕ
fill_with w [] n = []
fill_with w (x ∷ map) zero = x ∷ map
fill_with w (x ∷ map) (suc n) = w ∷ fill_with w map n

unfoldable pub bitmap_clear : List ℕ → ℕ → List ℕ
unfolding fill_with
bitmap_clear map map_len = fill_with 0 map map_len

pub bitmap_fill : List ℕ → ℕ → List ℕ
unfolding fill_with
bitmap_fill map map_len = fill_with 0xffff_ffff map map_len

-- `map[pos/32] = map[pos/32] | mask[pos%32]`
abbrev pub or_mask : List ℕ → ℕ → List ℕ
or_mask map pos = set map (pos / 32) (bit_or (get_or map (pos / 32) 0) (mask (pos % 32)))

-- `map[pos/32] = map[pos/32] & (~mask[pos%32])`
abbrev pub and_not_mask : List ℕ → ℕ → List ℕ
and_not_mask map pos =
    set map (pos / 32) (bit_and (get_or map (pos / 32) 0) (complement (mask (pos % 32))))

unfoldable pub bitmap_set_bit : List ℕ → ℕ → ℕ → Errno × List ℕ
bitmap_set_bit map map_len start =
    if leb (map_len * 32) start then (err, map) else (ok, or_mask map start)

pub bitmap_clear_bit : List ℕ → ℕ → ℕ → Errno × List ℕ
bitmap_clear_bit map map_len start =
    if leb (map_len * 32) start then (err, map) else (ok, and_not_mask map start)

-- The loop of `bitmap_set_nbits`, from `inum = start + i` with `n` rounds left.
set_loop : ℕ → ℕ → List ℕ → List ℕ
set_loop zero inum map = map
set_loop (suc n) inum map = set_loop n (inum + 1) (or_mask map inum)

unfoldable pub bitmap_set_nbits : List ℕ → ℕ → ℕ → ℕ → Errno × List ℕ
unfolding set_loop
bitmap_set_nbits map map_len start len =
    if leb (map_len * 32) (start + len) then (err, map) else (ok, set_loop len start map)

clear_loop : ℕ → ℕ → List ℕ → List ℕ
clear_loop zero inum map = map
clear_loop (suc n) inum map = clear_loop n (inum + 1) (and_not_mask map inum)

unfoldable pub bitmap_clear_nbits : List ℕ → ℕ → ℕ → ℕ → Errno × List ℕ
unfolding clear_loop
bitmap_clear_nbits map map_len start len =
    if leb (map_len * 32) (start + len) then (err, map) else (ok, clear_loop len start map)

-- `(map[i] & mask[j]) == 0`
abbrev pub is_clear : List ℕ → ℕ → ℕ → Bool
is_clear map i j = bit_and (get_or map i 0) (mask j) == 0

-- What a scan of one word comes to: the function returns, or goes on with this `count`.
pub data Scan : Type 0 where
  found : ℕ → Scan
  going : ℕ → Scan

-- The inner loop of `bitmap_search_from` on word `i`, with `n` rounds left.
scan_word : List ℕ → (num i n j count : ℕ) → Scan
scan_word map num i zero j count = going count
scan_word map num i (suc n) j count = elim (is_clear map i j) [
  | true ↦ elim (count + 1 == num) [
    | true ↦ found (i * 32 + j + 1 - (count + 1))
    | false ↦ scan_word map num i n (j + 1) (count + 1)
  ]
  | false ↦ scan_word map num i n (j + 1) 0
]

-- The outer loop, with `n` words left: only the first word is entered at a `j` that may not be 0.
scan_words : List ℕ → (num n i j count : ℕ) → Option ℕ
unfolding scan_word
scan_words map num zero i j count = none
scan_words map num (suc n) i j count = elim (scan_word map num i (bitmask_nr - j) j count) [
  | found r ↦ some r
  | going count' ↦ scan_words map num n (i + 1) 0 count'
]

-- `none` is ERR.
unfoldable pub bitmap_search_from : List ℕ → (map_len start num : ℕ) → Option ℕ
unfolding scan_words
bitmap_search_from map map_len start num =
    if leb (map_len * 32) num
    then none
    else if leb (map_len * 32) start
    then none
    else scan_words map num (map_len - start / 32) (start / 32) (start % 32) 0

-- The inner loop of `bitmap_search_reverse` on word `i`: the next bit to look at is `j - 1`.
scan_word_back : List ℕ → (num i j count : ℕ) → Scan
scan_word_back map num i zero count = going count
scan_word_back map num i (suc j) count = elim (is_clear map i j) [
  | true ↦ elim (count + 1 == num) [
    | true ↦ found (i * 32 + j)
    | false ↦ scan_word_back map num i j (count + 1)
  ]
  | false ↦ scan_word_back map num i j 0
]

-- The outer loop: the next word is `i - 1`.
scan_words_back : List ℕ → (num i count : ℕ) → Option ℕ
unfolding scan_word_back
scan_words_back map num zero count = none
scan_words_back map num (suc i) count = elim (scan_word_back map num i bitmask_nr count) [
  | found r ↦ some r
  | going count' ↦ scan_words_back map num i count'
]

unfoldable pub bitmap_search_reverse : List ℕ → (map_len num : ℕ) → Option ℕ
unfolding scan_words_back
bitmap_search_reverse map map_len num =
    if leb (map_len * 32) num then none else scan_words_back map num map_len 0

-- `none` is a read of `map[map_len]`, outside the array.
unfoldable pub is_bit_on : List ℕ → (map_len pos : ℕ) → Option Bool
is_bit_on map map_len pos =
    if ltb (map_len * 32) pos
    then some false
    else if ltb (pos / 32) map_len
    then some (not (is_clear map (pos / 32) (pos % 32)))
    else none

abbrev pub zero_bits : ℕ
zero_bits = 1

abbrev pub one_bits : ℕ
one_bits = 2

-- The inner loop of `count_bits` on the word `unit`, from bit `j` with `n` rounds left.
count_word : Bool → (unit n j count : ℕ) → ℕ
count_word ones unit zero j count = count
count_word ones unit (suc n) j count = count_word ones unit n (j + 1) (
    if ones && not (bit_and (mask j) unit == 0)
    then count + 1
    else if not ones && (bit_and (mask j) unit == 0)
    then count + 1
    else count)

count_words : Bool → List ℕ → (n i count : ℕ) → ℕ
unfolding count_word
count_words ones map zero i count = count
count_words ones map (suc n) i count =
    count_words ones map n (i + 1) (count_word ones (get_or map i 0) 32 0 count)

-- `none` is ERR: the flags are neither ONE_BITS nor ZERO_BITS.
pub count_bits : List ℕ → (map_len flags : ℕ) → Option ℕ
unfolding count_words
count_bits map map_len flags =
    if flags == one_bits
    then some (count_words true map map_len 0 0)
    else if flags == zero_bits
    then some (count_words false map map_len 0 0)
    else none

-- The loop of `bitmap_xor`, over the words that are left of both maps.
pub bitmap_xor : List ℕ → List ℕ → ℕ → List ℕ
bitmap_xor [] map2 n = []
bitmap_xor (x ∷ map1) map2 zero = x ∷ map1
bitmap_xor (x ∷ map1) [] (suc n) = x ∷ map1
bitmap_xor (x ∷ map1) (y ∷ map2) (suc n) = bit_xor x y ∷ bitmap_xor map1 map2 n
