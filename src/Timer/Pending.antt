-- ===== src/Timer/Pending.antt =====
-- What the list of timers stands for: the pending timers, in the order in which they are due.
use winix.Prelude.{
  ℕ, ◌-◌, ◌^◌, ◌≤◌, ◌≡◌, ◌≢◌, true, false, List, [], ◌∷◌, arith, bit, bit-bit_and, bit-bit_or,
  bit_and-pow_is_zero, bit-not_pow, bit-pow, bit_and, bit_or,
}
use winix.Ready.{Ptr, null}
use winix.Ready.Chain.{has, Chain}
use winix.Timer.{Timers, in_use, clear_inuse, timer_inuse}

-- The times do not decrease along the list.
abbrev pub Sorted : (Ptr → ℕ) → List Ptr → Type 0
Sorted time [] = Unit
Sorted time (x ∷ xs) = ((a : Ptr) → has a xs ≡ true → time x ≤ time a) × Sorted time xs

-- The list holds the timers `xs` in order, sorted; `next_timeout` is the first one's time; the
-- timers of the list, and no others, are in use.
pub record IsPending (t : Timers) (xs : List Ptr) : Type 0 where
  pub chain : Chain t.next t.pending_timers xs
  pub sorted : Sorted t.time_out xs
  pub soonest : xs ≢ [] → t.next_timeout ≡ t.time_out t.pending_timers
  pub inuse : (a : Ptr) → a ≢ null → in_use (t.flags a) ≡ has a xs

-- Sorting looks at the times of the list only.
pub Sorted-same :
    {time time' : Ptr → ℕ} (xs : List Ptr)
    → Sorted time xs
    → ((a : Ptr) → has a xs ≡ true → time' a ≡ time a)
    → Sorted time' xs
unfolding has
Sorted-same [] o same = o
Sorted-same {time} {time'} (x ∷ xs) o same = (
  λ a m.
      let first : time' x ≡ time x = same x (ground arith) in
      let later : time' a ≡ time a = same a (ground arith) in omega (arith, first, later, o.0 a m),
  Sorted-same xs o.1 (λ a m. same a (ground arith)),
)

pub in_use-bit : (f : ℕ) → in_use f ≡ bit f 0
in_use-bit f = ground (arith, bit_and-pow_is_zero f 0)

-- The flag is set by `|=`, kept by `& TIMER_INUSE` and dropped by `&= ~TIMER_INUSE`.
pub in_use-bit_or : (f : ℕ) → in_use (bit_or f timer_inuse) ≡ true
in_use-bit_or f =
    rw (in_use-bit (bit_or f timer_inuse), bit-bit_or f timer_inuse 0) (ground (arith, bit-pow 0 0))

pub in_use-bit_and : (f : ℕ) → in_use (bit_and f timer_inuse) ≡ in_use f
in_use-bit_and f =
    rw (in_use-bit (bit_and f timer_inuse), in_use-bit f, bit-bit_and f timer_inuse 0)
      (ground (arith, bit-pow 0 0))

pub in_use-clear_inuse : (f : ℕ) → in_use (clear_inuse f) ≡ false
in_use-clear_inuse f =
    rw (in_use-bit (clear_inuse f), bit-bit_and f (clear_inuse (2 ^ 32 - 1)) 0)
      (ground (arith, bit-not_pow 32 0 0 (omega arith)))
