-- ===== src/Mm/Region.antt =====
-- `init_mem_table`, `get_free_pages_from` and `is_vaddr_ok`.
use mathlib.Core.Bool.{false≢true}
use winix.Prelude.{
  ℕ, zero, suc, ◌+◌, ◌*◌, ◌/◌, ◌%◌, ◌^◌, ◌≤◌, ◌<◌, ◌≡◌, refl, sym, ◌∙◌, inl, inr, Bool, true, false,
  ◌||◌, List, none, some, arith, ltb, ◌==◌, if◌then◌else◌, dec_lt, length, Bool-cases, lt→ltb,
  bit_or, bit_or-ones,
}
use winix.Errno.{Errno, ok, enomem}
use winix.Bitmap.{is_bit_on, bitmap_set_nbits, bitmap_clear}
use winix.Bitmap.Masks.{page_on, is_bit_on-page_on}
use winix.Bitmap.Update.{
  in_range, bitmap_set_nbits-page_on, bitmap_bit-page_on, length-bitmap_clear, bitmap_clear_all,
}
use winix.Bitmap.Search.{FreeRun}
use winix.Mm.{
  Mem, Image, mem_map_len, ptable_len, page_len, num_pages, pages_free, is_pages_free_from,
  get_free_pages_from, is_vaddr_ok, get_physical_addr, init_mem_table,
}
use winix.Mm.Alloc.{IsValid, num_pages_lem, run_below, run_above, marking_grants}

-- `(BSS_END | 0x03ff) + 1` is the first page boundary after BSS_END.
round_up : (bss_end : ℕ) → bit_or bss_end 0x03ff + 1 ≡ (bss_end / 1024 + 1) * 1024
round_up bss_end = bit_or-ones 10 bss_end

module _ (map : List ℕ) (bss_end : ℕ) (array : length map ≡ mem_map_len)
    (small : bss_end < 126 * 1024) where
  -- The first page behind the kernel's image.
  first_page : ℕ
  first_page = bss_end / page_len + 1

  first_page_lem : (bit_or bss_end 0x03ff + 1) % 2 ^ 32 / page_len ≡ first_page
  unfolding first_page
  first_page_lem = rw (round_up bss_end) (omega arith)

  page_on-init :
      (p : ℕ) → page_on (init_mem_table map bss_end).mem_map p ≡ (ltb p first_page || (p == 127))
  unfolding init_mem_table first_page
  page_on-init p =
      let map0 = bitmap_clear map mem_map_len in
      let l0 = length-bitmap_clear map mem_map_len ∙ array in
      let map1 = (bitmap_set_nbits map0 mem_map_len 0 first_page).1 in
      let kernel = bitmap_set_nbits-page_on map0 mem_map_len l0 0 first_page p in
      let last = bitmap_bit-page_on map1 mem_map_len kernel.2 127 p in
      rw (first_page_lem, last.2, kernel.1, bitmap_clear_all map mem_map_len p array) (ground arith)

  length-init : length (init_mem_table map bss_end).mem_map ≡ mem_map_len
  unfolding init_mem_table first_page
  length-init =
      let map0 = bitmap_clear map mem_map_len in
      let l0 = length-bitmap_clear map mem_map_len ∙ array in
      let map1 = (bitmap_set_nbits map0 mem_map_len 0 first_page).1 in
      let kernel = bitmap_set_nbits-page_on map0 mem_map_len l0 0 first_page 0 in
      rw first_page_lem (bitmap_bit-page_on map1 mem_map_len kernel.2 127 0).4

  bss_page_end-init : (init_mem_table map bss_end).bss_page_end ≡ first_page
  unfolding init_mem_table
  bss_page_end-init = first_page_lem

  -- `init_mem_table` on any array of four words, with the kernel's image below the last two pages,
  -- makes a valid state in which exactly the pages up to the one that holds BSS_END and the last
  -- page are marked.
  pub init_mem_table-IsValid :
      let m = init_mem_table map bss_end in
      IsValid m
      × (m.bss_page_end ≡ bss_end / page_len + 1)
      × ((p : ℕ) → page_on m.mem_map p ≡ (ltb p m.bss_page_end || (p == 127)))
  unfolding first_page
  init_mem_table-IsValid = (
    record {
      words = length-init;
      kernel = λ p lt. ground (arith, page_on-init p, bss_page_end-init);
      last = ground (arith, page_on-init 127);
      some_kernel = omega (arith, bss_page_end-init);
      small = omega (arith, bss_page_end-init);
    },
    bss_page_end-init,
    λ p. rw bss_page_end-init (page_on-init p),
  )

is_bit_on_inside :
    (map : List ℕ) (p : ℕ) → p < 128 → is_bit_on map mem_map_len p ≡ some (page_on map p)
is_bit_on_inside map p h = rw (is_bit_on-page_on map mem_map_len p, lt→ltb p 128 h) refl

-- What the loop of `is_pages_free_from` answers about `n` pages from `p` on.
Answers : List ℕ → (p n : ℕ) → Bool → Type 0
Answers map p n true = FreeRun map p n
Answers map p n false = ¬ FreeRun map p n

pages_free-Answers :
    (map : List ℕ) (n p : ℕ)
    → p + n ≤ 128
    → (b : Bool) × (pages_free map n p ≡ some b) × Answers map p n b
unfolding pages_free Answers
pages_free-Answers map zero p h = (true, refl, λ k lo hi. absurd (omega arith))
pages_free-Answers map (suc n) p h = elim (Bool-cases (page_on map p)) [
  | inl on ↦ (
    false,
    rw (is_bit_on_inside map p (omega arith), on, pages_free) refl,
    λ free. false≢true (rw on at (sym (free p (omega arith) (omega arith)))),
  )
  | inr off ↦
      let (b, e, is) = pages_free-Answers map n (p + 1) (omega arith) in
      (b, rw (is_bit_on_inside map p (omega arith), off, pages_free) e, extend b off is)
]
  where
    extend : (b : Bool) → page_on map p ≡ false → Answers map (p + 1) n b → Answers map p (suc n) b
    extend true off free = λ k lo hi. elim (dec_lt p k) [
      | yes lt ↦ free k (omega arith) (omega arith)
      | no ge ↦ let e : k ≡ p = omega arith in rw e off
    ]
    extend false off busy = λ free. busy (λ k lo hi. free k (omega arith) (omega arith))

-- The outcomes of `get_free_pages_from` on a range: it was free and now exactly its pages are
-- marked besides those of `m`, or it was not free, and nothing has changed.
pub data Claimed (m : Mem) (p n : ℕ) : Errno → Mem → Type 0 where
  taken :
      {m' : Mem}
      → FreeRun m.mem_map p n
      → ((q : ℕ) → page_on m'.mem_map q ≡ (in_range p n q || page_on m.mem_map q))
      → IsValid m'
      → Claimed m p n ok m'
  busy : ¬ FreeRun m.mem_map p n → Claimed m p n enomem m

module _ {m : Mem} (v : IsValid m) (addr size : ℕ) (some_size : 0 < size) where
  -- In a valid state, for a range that lies in memory, `get_free_pages_from` takes the pages of
  -- the range if they are all free and otherwise answers ENOMEM; it never reads outside the map.
  pub get_free_pages_from-Claimed :
      addr / page_len + num_pages size ≤ 128
      → (status : Errno) × (m' : Mem) × (get_free_pages_from m addr size ≡ some (status, m'))
        × Claimed m (addr / page_len) (num_pages size) status m'
  unfolding get_free_pages_from is_pages_free_from Answers
  get_free_pages_from-Claimed room =
      let (b, e, is) = pages_free-Answers m.mem_map (num_pages size) (addr / page_len) room in
      outcome b e is
    where
      p : ℕ
      p = addr / page_len

      n : ℕ
      n = num_pages size

      claim :
          FreeRun m.mem_map p n
          → Claimed m p n
              (bitmap_set_nbits m.mem_map mem_map_len p n).0
              (record m { mem_map = (bitmap_set_nbits m.mem_map mem_map_len p n).1 })
      claim free =
          let below = run_below v p n (omega (arith, num_pages_lem size)) room free in
          let above = run_above v p n (omega (arith, num_pages_lem size)) free in
          let g = marking_grants v n p (omega (arith, num_pages_lem size)) free room in
          let after = bitmap_set_nbits-page_on m.mem_map mem_map_len v.words p n in
          rw ((after 0).0, lt→ltb _ _ below)
            (taken free (λ q. rw ((after q).1, lt→ltb _ _ below) refl) g.still_valid)

      outcome :
          (b : Bool)
          → pages_free m.mem_map n p ≡ some b
          → Answers m.mem_map p n b
          → (status : Errno) × (m' : Mem) × (get_free_pages_from m addr size ≡ some (status, m'))
            × Claimed m p n status m'
      outcome true e free = (_, _, rw (e, get_free_pages_from) refl, claim free)
      outcome false e is_busy = (enomem, m, rw (e, get_free_pages_from) refl, busy is_busy)

-- `is_vaddr_ok` at a virtual address whose physical address lies in the first half of the address
-- space asks the process's table for the page of that address; from 32 * 1024 pages on the answer
-- is no, but at the page just past the table it reads outside it.
pub is_vaddr_ok-page_on :
    (addr : ℕ) (who : Image)
    → get_physical_addr addr who < 2 ^ 31
    → let page = get_physical_addr addr who / page_len in
      is_vaddr_ok addr who ≡ (
        if ltb page 1024
        then some (page_on who.ptable page)
        else if page == 1024
        then none
        else some false)
unfolding is_vaddr_ok
is_vaddr_ok-page_on addr who h =
    rw
      (
        lt→ltb (get_physical_addr addr who) (2 ^ 31) h,
        is_bit_on-page_on who.ptable ptable_len (get_physical_addr addr who / page_len),
      )
      refl
