-- ===== src/Brk.antt =====
-- kernel/system/do_brk.c: the heap of a process. `Heap` adds heap_top and heap_break to the fields
-- that winix/mm.c uses. A pointer is a 32-bit word; so is an `int`, negative from 2 ^ 31 on.
pub mod Pages
pub mod Grow
pub mod Shrink
mod Tests
use winix.Prelude.{
  ℕ, zero, suc, ◌+◌, ◌-◌, ◌^◌, ◌%◌, Bool, true, false, not, ◌&&◌, Option, none, some, ltb, leb,
  ◌==◌, if◌then◌else◌,
}
use winix.Errno.{Errno, ok, enomem, einval}
use winix.Mm.{Mem, Image, null, align_page, get_physical_addr, user_get_free_pages_from}

pub record Heap : Type 0 where
  pub image : Image
  pub heap_top : ℕ
  pub heap_break : ℕ

-- `get_virtual_addr`, in 32 bits
abbrev pub get_virtual_addr : ℕ → Heap → ℕ
get_virtual_addr addr who = (addr + (2 ^ 32 - who.image.rbase)) % 2 ^ 32

abbrev pub with_break : Heap → ℕ → Heap
with_break who b = record who { heap_break = b }

-- The heap with the process's page table as the call left it, extended behind its bottom.
abbrev pub extended : Heap → Image → (size request_size : ℕ) → Heap
extended who image size request_size = record who {
  image = record image { heap_bottom = (image.heap_bottom + align_page request_size) % 2 ^ 32 };
  heap_break = (who.heap_break + size) % 2 ^ 32;
}

-- What `sys_sbrk` does with the answer of `user_get_free_pages_from`.
abbrev pub extend : Heap → (size request_size : ℕ) → Errno × Mem × Image → ℕ × Mem × Heap
extend who size request_size (ok, m, image) =
    ((extended who image size request_size).heap_break, m, extended who image size request_size)
extend who size request_size (_, m, image) = (null, m, record who { image = image })

-- The new break, or NULL; `none` is a read outside the memory map.
unfoldable pub sys_sbrk : Mem → Heap → (size : ℕ) → Option (ℕ × Mem × Heap)
sys_sbrk m who size =
    let moved = (who.heap_break + size) % 2 ^ 32 in
    let residual = (who.image.heap_bottom + (2 ^ 32 - who.heap_break)) % 2 ^ 32 in
    let next_page = who.image.heap_bottom + 1 in
    let request_size = (size + (2 ^ 32 - residual)) % 2 ^ 32 in
    if size == 0
    then some (who.heap_break, m, who)
    else if leb (2 ^ 31) size
    then if leb who.heap_top moved
      then some (moved, m, with_break who moved)
      else some (null, m, who)
    else if ltb residual (2 ^ 31) && leb size residual
    then some (moved, m, with_break who moved)
    else elim (user_get_free_pages_from m who.image next_page request_size) [
      | none ↦ none
      | some answer ↦ some (extend who size request_size answer)
    ]

-- The answer is a virtual address.
unfoldable pub do_sbrk : Mem → Heap → (size : ℕ) → Option (ℕ × Mem × Heap)
do_sbrk m who size = elim (sys_sbrk m who size) [
  | none ↦ none
  | some (ret, m', who') ↦ some (get_virtual_addr ret who', m', who')
]

-- What `do_brk` makes of the answer of `sys_sbrk`: its status, and the reply in m1_p1.
abbrev brk_reply : (old : ℕ) → ℕ × Mem × Heap → Errno × ℕ × Mem × Heap
brk_reply old (new_brk, m, who) =
    if new_brk == null then (enomem, old, m, who) else (ok, get_virtual_addr new_brk who, m, who)

unfoldable pub do_brk : Mem → Heap → (vaddr : ℕ) → Option (Errno × ℕ × Mem × Heap)
do_brk m who vaddr =
    let addr = get_physical_addr vaddr who.image in
    let old = get_virtual_addr who.heap_break who in
    if ltb addr who.heap_break
    then if ltb addr who.heap_top
      then some (einval, old, m, who)
      else some (ok, vaddr, m, with_break who addr)
    else elim (sys_sbrk m who ((addr + (2 ^ 32 - who.heap_break)) % 2 ^ 32)) [
      | none ↦ none
      | some answer ↦ some (brk_reply old answer)
    ]
