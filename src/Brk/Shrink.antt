-- ===== src/Brk/Shrink.antt =====
-- `sys_sbrk` with a negative size.
use winix.Prelude.{
  ℕ, ◌+◌, ◌-◌, ◌^◌, ◌%◌, ◌≤◌, ◌<◌, ◌≡◌, refl, ◌∙◌, true, false, some, leb, ◌==◌, if◌then◌else◌,
  arith, Bool-cases, inl, inr,
}
use winix.Mm.{Mem, null}
use winix.Brk.{Heap, with_break, sys_sbrk}

negative_size :
    (m : Mem) (who : Heap) (size : ℕ)
    → 2 ^ 31 ≤ size
    → let moved = (who.heap_break + size) % 2 ^ 32 in
      sys_sbrk m who size ≡ (
        if leb who.heap_top moved
        then some (moved, m, with_break who moved)
        else some (null, m, who))
unfolding sys_sbrk
negative_size m who size neg =
    let nonzero : (size == 0) ≡ false = ground arith in
    let negative : leb (2 ^ 31) size ≡ true = ground arith in rw (nonzero, negative) refl

-- For a heap in memory, `sys_sbrk` of `-k` moves the break down by `k` as long as it stays above
-- heap_top, and answers NULL with nothing changed for a larger `k`, but only up to the address of
-- the break itself: beyond that the address wraps around, and the break becomes the wrapped address.
pub sys_sbrk-negative :
    (m : Mem) (who : Heap) (k : ℕ)
    → 0 < k
    → k ≤ 2 ^ 31
    → who.heap_top ≤ who.heap_break
    → who.heap_break < 2 ^ 17
    → let b = who.heap_break in
      sys_sbrk m who (2 ^ 32 - k) ≡ (
        if leb k (b - who.heap_top)
        then some (b - k, m, with_break who (b - k))
        else if leb k b
        then some (null, m, who)
        else some (b + 2 ^ 32 - k, m, with_break who (b + 2 ^ 32 - k)))
sys_sbrk-negative m who k pos small top low =
    let b = who.heap_break in
    negative_size m who (2 ^ 32 - k) (omega arith) ∙ (elim (Bool-cases (leb k b)) [
      | inl e ↦
          let moved : (b + (2 ^ 32 - k)) % 2 ^ 32 ≡ b - k = omega (arith, leb_le k b e) in
          rw (moved, e) (ground (arith, top))
      | inr e ↦
          let moved : (b + (2 ^ 32 - k)) % 2 ^ 32 ≡ b + 2 ^ 32 - k = omega (arith, leb_gt k b e) in
          let above : leb who.heap_top (b + 2 ^ 32 - k) ≡ true = ground arith in
          let far : leb k (b - who.heap_top) ≡ false = ground arith in
          rw (moved, e, above, far) refl
    ])
  where
    leb_le : (x y : ℕ) → leb x y ≡ true → x ≤ y
    leb_le x y e = ground arith

    leb_gt : (x y : ℕ) → leb x y ≡ false → y < x
    leb_gt x y e = ground arith
