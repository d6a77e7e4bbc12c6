-- ===== src/Timer/Unlink.antt =====
-- The walk and the branches of `remove_timer`.
use winix.Prelude.{
  ℕ, zero, suc, ◌+◌, ◌≡◌, ◌≢◌, refl, true, false, not, List, [], ◌∷◌, arith, ◌==◌, if◌then◌else◌,
  Bool-cases, inl, inr, none, some,
}
use winix.Ready.{Ptr, null, update, find_link}
use winix.Ready.Chain.{has}
use winix.Ready.Remove.{erase, has-erase_le}
use winix.Timer.{Timers, clear_inuse, max_timers, find_timer, unlink_timer, remove_timer}
use winix.Timer.Pending.{Sorted}

-- The walk is the one of `dequeue_schedule`.
pub find_timer-find_link :
    (next : Ptr → Ptr) (p fuel prev curr : Ptr)
    → find_timer next p fuel prev curr ≡ find_link next p fuel prev curr
unfolding find_timer find_link
find_timer-find_link next p zero prev curr = refl
find_timer-find_link next p (suc fuel) prev curr =
    ground (arith, find_timer-find_link next p fuel curr (next curr))

pub has-erase : (a p : Ptr) (xs : List Ptr) → (a == p) ≡ false → has a (erase p xs) ≡ has a xs
unfolding has erase
has-erase a p [] ne = refl
has-erase a p (x ∷ xs) ne = ground (arith, has-erase a p xs ne)

pub erase-Sorted :
    (time : Ptr → ℕ) (p : Ptr) (xs : List Ptr) → Sorted time xs → Sorted time (erase p xs)
unfolding has erase
erase-Sorted time p [] o = o
erase-Sorted time p (x ∷ xs) o = elim (Bool-cases (x == p)) [
  | inl e ↦ rw e o.1
  | inr e ↦ rw e (
    (λ a m. o.0 a (elim (Bool-cases (has a xs)) [
      | inl on ↦ on
      | inr off ↦ absurd (ground (arith, has-erase_le a p xs off))
    ])),
    erase-Sorted time p xs o.1,
  )
]

-- The first timer leaves the list.
unfoldable pub without_first : Timers → Timers
without_first t =
    let rest = t.next t.pending_timers in
    record t {
      pending_timers = rest;
      next_timeout = if not (rest == null) then t.time_out rest else t.next_timeout;
    }

module _ (t : Timers) (p : Ptr) where
  pub remove_timer_at :
      {at : Ptr × Ptr} {t' : Timers}
      → find_timer t.next p (max_timers + 1) null t.pending_timers ≡ some at
      → unlink_timer t at ≡ some t'
      → remove_timer t p ≡ some (record t' { flags = update t'.flags p (clear_inuse (t'.flags p)) })
  unfolding remove_timer
  remove_timer_at e u = rw (e, u, remove_timer) refl

  pub remove_timer_fault :
      {at : Ptr × Ptr}
      → find_timer t.next p (max_timers + 1) null t.pending_timers ≡ some at
      → unlink_timer t at ≡ none
      → remove_timer t p ≡ none
  unfolding remove_timer
  remove_timer_fault e u = rw (e, u, remove_timer) refl

  pub unlink_timer_later :
      (prev : Ptr)
      → prev ≢ null
      → p ≢ null
      → unlink_timer t (p, prev) ≡ some (record t { next = update t.next prev (t.next p) })
  unfolding unlink_timer
  unlink_timer_later prev ne ne' =
      let later : (prev == null) ≡ false = ground arith in
      let found : (p == null) ≡ false = ground arith in rw (later, found) refl

  pub unlink_timer_first :
      (t.pending_timers == null) ≡ false → unlink_timer t (p, null) ≡ some (without_first t)
  unfolding unlink_timer without_first
  unlink_timer_first e = rw e refl

  -- Off the list, the code reads through NULL.
  pub unlink_timer_fault :
      (prev : Ptr)
      → ((prev == null) ≡ true → t.pending_timers ≡ null)
      → unlink_timer t (null, prev) ≡ none
  unfolding unlink_timer
  unlink_timer_fault prev empty = elim (Bool-cases (prev == null)) [
    | inl e ↦ rw (e, empty e) refl
    | inr e ↦ rw e refl
  ]
