-- ===== src/Mm/User.antt =====
-- The functions of winix/mm.c that keep a process's page table in step with the memory map.
use winix.Prelude.{
  ℕ, ◌+◌, ◌-◌, ◌/◌, ◌<◌, ◌≡◌, ◌≢◌, refl, ◌⊎◌, inl, inr, true, false, not, ◌&&◌, ◌||◌, arith, ◌==◌,
  length, lt→ltb,
}
use winix.Errno.{ok}
use winix.Bitmap.{bitmap_set_nbits, bitmap_clear_nbits}
use winix.Bitmap.Masks.{page_on}
use winix.Bitmap.Update.{
  in_range, fits, bitmap_set_nbits-page_on, bitmap_clear_nbits-page_on, bitmap_clear_all,
}
use winix.Mm.{
  Mem, Image, Gfp, mem_map_len, ptable_len, page_len, null, num_pages, get_free_pages,
  user_get_free_pages, user_free_pages, release_pages, release_proc_mem,
}
use winix.Mm.Alloc.{IsValid, Granted, NoRun, get_free_pages-Granted}
use winix.Mm.Release.{release_pages-get_free_pages}

-- `who'` is `who` with the `num` pages from address `r` on added to its table.
pub record MayUse (who : Image) (num r : ℕ) (who' : Image) : Type 0 where
  pub same : who' ≡ record who { ptable = who'.ptable }
  pub words : length who'.ptable ≡ ptable_len
  pub allowed :
      (p : ℕ) → page_on who'.ptable p ≡ (in_range (r / page_len) num p || page_on who.ptable p)

-- Adding the pages of a range that lies in memory to a table of a process.
abbrev add_pages : Image → (num r : ℕ) → Image
add_pages who num r = record who {
  ptable = (bitmap_set_nbits who.ptable ptable_len (r / page_len) num).1;
}

module _ (who : Image) (num r : ℕ) (table : length who.ptable ≡ ptable_len)
    (below : r / page_len + num < 128) where
  after :
      (p : ℕ)
      → let (status, map') = bitmap_set_nbits who.ptable ptable_len (r / page_len) num in
        (status ≡ ok)
        × (page_on map' p ≡ (in_range (r / page_len) num p || page_on who.ptable p))
        × (length map' ≡ ptable_len)
  after p =
      let a = bitmap_set_nbits-page_on who.ptable ptable_len table (r / page_len) num p in
      let accepted : fits ptable_len (r / page_len) num ≡ true = lt→ltb _ _ (omega arith) in
      (rw (a.0, accepted) refl, rw (a.1, accepted) refl, a.2)

  MayUse-add_pages : MayUse who num r (add_pages who num r)
  MayUse-add_pages = record { same = refl; words = (after 0).2; allowed = λ p. (after p).1 }

-- With pages granted below the last page, the process's table takes them.
user_get_free_pages_granted :
    (m : Mem) (who : Image) (len : ℕ) (flags : Gfp)
    → let (r, m') = get_free_pages m len flags in
      r ≢ null
      → length who.ptable ≡ ptable_len
      → r / page_len + num_pages len < 128
      → user_get_free_pages m who len flags ≡ (r, m', add_pages who (num_pages len) r)
unfolding user_get_free_pages
user_get_free_pages_granted m who len flags ne table below =
    let r = (get_free_pages m len flags).0 in
    let not_null : (r == null) ≡ false = ground arith in
    rw (not_null, (after who (num_pages len) r table below 0).0) refl

user_free_pages_released :
    (m : Mem) (who : Image) (page n : ℕ)
    → (release_pages m page n).0 ≡ ok
    → let cleared = bitmap_clear_nbits who.ptable ptable_len (page / page_len) n in
      user_free_pages m who page n
      ≡ (cleared.0, (release_pages m page n).1, record who { ptable = cleared.1 })
unfolding user_free_pages
user_free_pages_released m who page n e = rw (e, user_free_pages) refl

module _ {m : Mem} (v : IsValid m) (who : Image) (table : length who.ptable ≡ ptable_len) where
  -- In a valid state `user_get_free_pages` for a positive length returns NULL with nothing changed
  -- if there is no run of enough free pages; otherwise it grants the pages as `get_free_pages`
  -- does, and lets the process use exactly those pages besides the ones it had.
  pub user_get_free_pages-MayUse :
      (len : ℕ) (flags : Gfp)
      → 0 < len
      → let (r, m', who') = user_get_free_pages m who len flags in
        ((r ≡ null) × (m' ≡ m) × (who' ≡ who) × NoRun m (num_pages len))
        ⊎ (Granted m (num_pages len) r m' × MayUse who (num_pages len) r who')
  user_get_free_pages-MayUse len flags pos = elim (get_free_pages-Granted v len flags pos) [
    | inl (e, same, none_free) ↦
        inl (unfold user_get_free_pages in rw e (refl, same, refl, none_free))
    | inr g ↦ rw (user_get_free_pages_granted m who len flags g.not_null table g.below_last) (
        inr (
          g,
          MayUse-add_pages who (num_pages len) (get_free_pages m len flags).0 table g.below_last,
        ))
  ]

  -- `user_free_pages` of pages granted to a process that could use none of them before is
  -- accepted, and makes every page of memory and of the process's table as it was.
  pub user_free_pages-user_get_free_pages :
      (num r p : ℕ) {m' : Mem} {who' : Image}
      → Granted m num r m'
      → MayUse who num r who'
      → ((q : ℕ) → in_range (r / page_len) num q ≡ true → page_on who.ptable q ≡ false)
      → let (status, m'', who'') = user_free_pages m' who' r num in
        (status ≡ ok)
        × (page_on m''.mem_map p ≡ page_on m.mem_map p)
        × (page_on who''.ptable p ≡ page_on who.ptable p)
  user_free_pages-user_get_free_pages num r p {m'} {who'} g u none_before =
      let (released, same) = release_pages-get_free_pages num r p v g in
      let a = bitmap_clear_nbits-page_on who'.ptable ptable_len u.words (r / page_len) num p in
      let accepted : fits ptable_len (r / page_len) num ≡ true =
        lt→ltb _ _ (omega (arith, g.below_last)) in
      rw (user_free_pages_released m' who' r num released) (
        rw (a.0, accepted) refl,
        same,
        rw (a.1, accepted, u.allowed p) (ground (arith, none_before p)),
      )

-- `release_proc_mem` frees the whole pages of the process's image, if they end before the last
-- page of memory, and no other page, and leaves the process with no page that it may use.
pub release_proc_mem-page_on :
    (m : Mem) (who : Image) (p : ℕ)
    → length m.mem_map ≡ mem_map_len
    → length who.ptable ≡ ptable_len
    → let (m', who') = release_proc_mem m who in
      let start = who.mem_start / page_len in
      let pages = (who.heap_bottom + 1 - who.mem_start) / page_len in
      (page_on m'.mem_map p
        ≡ (not (fits mem_map_len start pages && in_range start pages p) && page_on m.mem_map p))
      × (page_on who'.ptable p ≡ false)
unfolding release_proc_mem
release_proc_mem-page_on m who p words table = (
  (bitmap_clear_nbits-page_on m.mem_map mem_map_len words (who.mem_start / page_len)
      ((who.heap_bottom + 1 - who.mem_start) / page_len) p).1,
  bitmap_clear_all who.ptable ptable_len p table,
)
