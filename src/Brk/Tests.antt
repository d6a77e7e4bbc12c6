-- ===== src/Brk/Tests.antt =====
-- The heap of a concrete process.
use winix.Prelude.{ℕ, ◌+◌, ◌-◌, ◌^◌, ◌≡◌, refl, some, arith, replicate}
use winix.Mm.{Mem, init_mem_table}
use winix.Mm.Alloc.{IsValid}
use winix.Mm.Region.{init_mem_table-IsValid}
use winix.Brk.{Heap, with_break, sys_sbrk}
use winix.Brk.Grow.{IsHeap, Grown, sys_sbrk-Grown}
use winix.Brk.Shrink.{sys_sbrk-negative}

abbrev booted : Mem
booted = init_mem_table (replicate 4 0) 5000

valid : IsValid booted
valid = (init_mem_table-IsValid (replicate 4 0) 5000 refl (omega arith)).0

-- A heap of pages 8 and 9, half of it in use.
abbrev program : Heap
program = record {
  image = record { rbase = 5120; ptable = replicate 32 0; mem_start = 5120; heap_bottom = 10239 };
  heap_top = 8192;
  heap_break = 9000;
}

program-IsHeap : IsHeap program
program-IsHeap = record {
  top = omega arith;
  bottom = omega arith;
  page_end = refl;
  low = omega arith;
  words = refl;
}

sys_sbrk-Grown_example :
    (answer : ℕ × Mem × Heap) × (sys_sbrk booted program 3000 ≡ some answer)
    × Grown booted program 3000 answer
sys_sbrk-Grown_example =
    sys_sbrk-Grown valid program program-IsHeap 3000 (omega arith) (omega arith)

sys_sbrk-negative_example :
    sys_sbrk booted program (2 ^ 32 - 9500)
    ≡ some (9000 + 2 ^ 32 - 9500, booted, with_break program (9000 + 2 ^ 32 - 9500))
sys_sbrk-negative_example =
    sys_sbrk-negative booted program 9500 (omega arith) (omega arith) (omega arith) (omega arith)
