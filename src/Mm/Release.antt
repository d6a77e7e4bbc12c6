-- ===== src/Mm/Release.antt =====
-- `release_pages`: what is released is free again, and nothing else is.
use winix.Prelude.{
  ℕ, ◌/◌, ◌%◌, ◌≤◌, ◌≡◌, refl, inl, inr, true, not, ◌&&◌, arith, ◌==◌, if◌then◌else◌, length,
  Bool-cases, lt→ltb,
}
use winix.Errno.{ok, err}
use winix.Bitmap.Masks.{page_on}
use winix.Bitmap.Update.{in_range, fits, bitmap_clear_nbits-page_on}
use winix.Mm.{Mem, mem_map_len, page_len, release_pages}
use winix.Mm.Alloc.{IsValid, Granted}

-- `release_pages` accepts an aligned address whose `n` pages end before the last page of memory;
-- it then frees those pages and no other. Anything else it refuses and changes nothing.
pub release_pages-page_on :
    {m : Mem} (page n p : ℕ)
    → IsValid m
    → let (status, m') = release_pages m page n in
      let accepted = (page % page_len == 0) && fits mem_map_len (page / page_len) n in
      (status ≡ (if accepted then ok else err))
      × (page_on m'.mem_map p
          ≡ (not (accepted && in_range (page / page_len) n p) && page_on m.mem_map p))
      × (length m'.mem_map ≡ mem_map_len)
      × (m'.bss_page_end ≡ m.bss_page_end)
unfolding release_pages
release_pages-page_on {m} page n p v =
    let after = bitmap_clear_nbits-page_on m.mem_map mem_map_len v.words (page / page_len) n p in
    elim (Bool-cases (page % page_len == 0)) [
      | inl e ↦ rw e (after.0, after.1, after.2, refl)
      | inr e ↦ rw e (refl, refl, v.words, refl)
    ]

-- Releasing pages that lie above the kernel keeps the state valid: the last page is out of reach.
pub release_pages-IsValid :
    {m : Mem} (page n : ℕ)
    → IsValid m
    → m.bss_page_end ≤ page / page_len
    → IsValid (release_pages m page n).1
release_pages-IsValid {m} page n v above =
    let at = λ (p : ℕ). release_pages-page_on page n p v in
    record {
      words = (at 0).2;
      kernel = λ p lt. rw ((at p).1, v.kernel p (rw (at 0).3 at lt)) (ground (arith, (at 0).3));
      last = rw ((at 127).1, v.last) (ground arith);
      some_kernel = rw (at 0).3 v.some_kernel;
      small = rw (at 0).3 v.small;
    }

-- Releasing the pages that a call of `get_free_pages` granted is accepted and makes every page of
-- memory as it was before the call.
pub release_pages-get_free_pages :
    {m m' : Mem} (num r p : ℕ)
    → IsValid m
    → Granted m num r m'
    → let (status, m'') = release_pages m' r num in
      (status ≡ ok) × (page_on m''.mem_map p ≡ page_on m.mem_map p)
release_pages-get_free_pages {m} {m'} num r p v g =
    let after = release_pages-page_on r num p g.still_valid in
    let aligned : (r % page_len == 0) ≡ true = ground (arith, g.aligned) in
    let room : fits mem_map_len (r / page_len) num ≡ true = lt→ltb _ _ g.below_last in
    ground (arith, aligned, room, after, g.marked p, g.was_free p)
