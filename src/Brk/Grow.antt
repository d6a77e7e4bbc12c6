-- ===== src/Brk/Grow.antt =====
-- `sys_sbrk` with a positive size: the break moves up, with new pages when the heap is full.
use winix.Prelude.{
  ℕ, zero, suc, ◌+◌, ◌-◌, ◌*◌, ◌/◌, ◌^◌, ◌%◌, ◌≤◌, ◌<◌, ◌≡◌, refl, ap, true, false, ◌&&◌, ◌||◌,
  some, ltb, leb, ◌==◌, arith, Bool-cases, inl, inr, length,
}
use winix.Errno.{Errno, ok}
use winix.Bitmap.Masks.{page_on}
use winix.Bitmap.Search.{FreeRun}
use winix.Bitmap.Update.{in_range}
use winix.Mm.{
  Mem, Image, null, page_len, ptable_len, align_page, num_pages, user_get_free_pages_from,
}
use winix.Mm.Alloc.{IsValid, num_pages_lem}
use winix.Mm.Region.{Claimed}
use winix.Brk.{Heap, with_break, extend, sys_sbrk}
use winix.Brk.Pages.{Given, given, not_given, user_get_free_pages_from-Given}

-- The break lies in the heap, which ends at a page's end in memory.
pub record IsHeap (who : Heap) : Type 0 where
  pub top : who.heap_top ≤ who.heap_break
  pub bottom : who.heap_break ≤ who.image.heap_bottom
  pub page_end : (who.image.heap_bottom + 1) % page_len ≡ 0
  pub low : who.image.heap_bottom < 2 ^ 17
  pub words : length who.image.ptable ≡ ptable_len

-- The words of `size` that the heap has not, and the page behind it.
abbrev pub missing : Heap → ℕ → ℕ
missing who size = size - (who.image.heap_bottom - who.heap_break)

abbrev pub page_behind : Heap → ℕ
page_behind who = (who.image.heap_bottom + 1) / page_len

-- What `sys_sbrk` did with a positive size: the heap had the words; or the pages behind it were free,
-- and the process has got them; or they were not, and it answers NULL with nothing changed.
pub data Grown (m : Mem) (who : Heap) (size : ℕ) : ℕ × Mem × Heap → Type 0 where
  inside :
      {who' : Heap}
      → size + who.heap_break ≤ who.image.heap_bottom
      → who' ≡ with_break who (who.heap_break + size)
      → IsHeap who'
      → Grown m who size (who.heap_break + size, m, who')
  added :
      {m' : Mem} {who' : Heap}
      → Claimed m (page_behind who) (num_pages (missing who size)) ok m'
      → ((q : ℕ)
          → page_on who'.image.ptable q ≡ (
              in_range (page_behind who) (num_pages (missing who size)) q
              || page_on who.image.ptable q))
      → who'.heap_break ≡ who.heap_break + size
      → who'.image.heap_bottom ≡ who.image.heap_bottom + num_pages (missing who size) * page_len
      → IsHeap who'
      → Grown m who size (who'.heap_break, m', who')
  full :
      who.image.heap_bottom < size + who.heap_break
      → ¬ FreeRun m.mem_map (page_behind who) (num_pages (missing who size))
      → Grown m who size (null, m, who)

align_page_lem : (len : ℕ) → 0 < len → align_page len ≡ num_pages len * page_len
align_page_lem zero pos = absurd (omega arith)
align_page_lem (suc n) pos = omega arith

module _ {m : Mem} (v : IsValid m) (who : Heap) (h : IsHeap who) (size : ℕ) (some_size : 0 < size)
    (room : who.heap_break + size + page_len ≤ 2 ^ 17) where
  step_inside :
      size + who.heap_break ≤ who.image.heap_bottom
      → sys_sbrk m who size
        ≡ some (who.heap_break + size, m, with_break who (who.heap_break + size))
  unfolding sys_sbrk
  step_inside fits_in =
      let residual : (who.image.heap_bottom + (2 ^ 32 - who.heap_break)) % 2 ^ 32
          ≡ who.image.heap_bottom - who.heap_break =
        omega (arith, h.bottom, h.low) in
      let nonzero : (size == 0) ≡ false = ground arith in
      let positive : leb (2 ^ 31) size ≡ false = ground arith in
      let enough : ltb (who.image.heap_bottom - who.heap_break) (2 ^ 31)
            && leb size (who.image.heap_bottom - who.heap_break)
          ≡ true =
        ground (arith, h.bottom, h.low) in
      let moved : (who.heap_break + size) % 2 ^ 32 ≡ who.heap_break + size = omega (arith, room) in
      rw (nonzero, positive, residual, enough, moved) refl

  step_extends :
      {answer : Errno × Mem × Image}
      → who.image.heap_bottom < size + who.heap_break
      → user_get_free_pages_from m who.image (who.image.heap_bottom + 1) (missing who size)
        ≡ some answer
      → sys_sbrk m who size ≡ some (extend who size (missing who size) answer)
  unfolding sys_sbrk
  step_extends {answer} over e =
      let residual : (who.image.heap_bottom + (2 ^ 32 - who.heap_break)) % 2 ^ 32
          ≡ who.image.heap_bottom - who.heap_break =
        omega (arith, h.bottom, h.low) in
      let nonzero : (size == 0) ≡ false = ground arith in
      let positive : leb (2 ^ 31) size ≡ false = ground arith in
      let short : ltb (who.image.heap_bottom - who.heap_break) (2 ^ 31)
            && leb size (who.image.heap_bottom - who.heap_break)
          ≡ false =
        ground (arith, h.bottom, h.low) in
      let request : (size + (2 ^ 32 - (who.image.heap_bottom + (2 ^ 32 - who.heap_break)) % 2 ^ 32))
            % 2 ^ 32
          ≡ missing who size =
        omega (arith, residual, room, h.bottom, h.low, over) in
      let reduced : (size + (2 ^ 32 - (who.image.heap_bottom - who.heap_break))) % 2 ^ 32
          ≡ missing who size =
        omega (arith, room, h.bottom, h.low, over) in
      rw (nonzero, positive, residual, short, reduced, e)
        (ap (λ r. some (extend who size r answer)) request)

  outcome :
      {answer : Errno × Mem × Image}
      → who.image.heap_bottom < size + who.heap_break
      → Given m who.image (page_behind who) (num_pages (missing who size)) answer
      → Grown m who size (extend who size (missing who size) answer)
  outcome over (given {m'} {table} claimed words marks) =
      let short : 0 < missing who size = omega (arith, h.bottom, over) in
      let up = num_pages_lem (missing who size) in
      let whole = align_page_lem (missing who size) short in
      let moved : (who.heap_break + size) % 2 ^ 32 ≡ who.heap_break + size = omega (arith, room) in
      let bottom : (who.image.heap_bottom + align_page (missing who size)) % 2 ^ 32
          ≡ who.image.heap_bottom + num_pages (missing who size) * page_len =
        omega (arith, whole, up.1, room, h.bottom, over) in
      added claimed marks moved bottom (record {
        top = omega (arith, moved, h.top);
        bottom = omega (arith, moved, bottom, up.0, h.bottom, over);
        page_end = omega (arith, bottom, h.page_end);
        low = omega (arith, bottom, up.1, room, h.bottom, over);
        words = words;
      })
  outcome over (not_given busy_pages) = full over busy_pages

  -- With memory valid, the heap well formed and the new break at least a page below the end of
  -- memory, `sys_sbrk` of a positive size returns: it moves the break up inside the heap, or takes the
  -- missing pages, which were free, and extends the heap by them, or answers NULL with nothing changed.
  pub sys_sbrk-Grown :
      (answer : ℕ × Mem × Heap) × (sys_sbrk m who size ≡ some answer) × Grown m who size answer
  sys_sbrk-Grown = elim (Bool-cases (leb (size + who.heap_break) who.image.heap_bottom)) [
    | inl e ↦
        let fits_in : size + who.heap_break ≤ who.image.heap_bottom = ground arith in
        (
          (who.heap_break + size, m, with_break who (who.heap_break + size)),
          step_inside fits_in,
          inside fits_in refl (record {
            top = omega (arith, h.top);
            bottom = omega (arith, fits_in);
            page_end = h.page_end;
            low = h.low;
            words = h.words;
          }),
        )
    | inr e ↦
        let over : who.image.heap_bottom < size + who.heap_break = ground arith in
        let short : 0 < missing who size = omega (arith, h.bottom, over) in
        let in_memory : page_behind who + num_pages (missing who size) ≤ 128 =
          omega (arith, (num_pages_lem (missing who size)).1, room, h.bottom, h.page_end, over) in
        let (answer, called, is) =
          user_get_free_pages_from-Given v who.image h.words (who.image.heap_bottom + 1)
            (missing who size) short in_memory in
        (extend who size (missing who size) answer, step_extends over called, outcome over is)
  ]
