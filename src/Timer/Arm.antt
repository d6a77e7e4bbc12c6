-- ===== src/Timer/Arm.antt =====
-- `insert_timer` and `new_timer`: the timer joins the sorted list.
use winix.Prelude.{
  ℕ, ◌+◌, ◌^◌, ◌%◌, ◌≤◌, ◌≡◌, ◌≢◌, refl, ap, sym, ◌∙◌, true, false, ◌||◌, List, [], ◌∷◌, arith,
  ◌==◌, length, Bool-cases, ==_iff, inl, inr, Option, some, bit_and,
}
use mathlib.Core.Path.{subst}
use winix.Errno.{Errno, ok, err}
use winix.Ready.{Ptr, null, update}
use winix.Ready.Chain.{has, Chain, Chain-same, ne_of_has}
use winix.Timer.{
  Timers, in_use, timer_inuse, max_timers, find_place, link_timer, insert_timer, set_timer,
  new_timer,
}
use winix.Timer.Pending.{Sorted, Sorted-same, IsPending, in_use-bit_or, in_use-bit_and}
use winix.Timer.Insert.{insert, find_place-place, has-insert, insert-Sorted}
use winix.Timer.Link.{place, Linked, link_timer-fields, link_timer-Linked}

insert_timer_at :
    (t : Timers) (p : Ptr) {at : Ptr × Ptr}
    → find_place t.time_out t.next (t.time_out p) (max_timers + 1) null t.pending_timers ≡ some at
    → let t' = link_timer t p at in
      insert_timer t p
      ≡ some (record t' { flags = update t'.flags p (bit_and (t'.flags p) timer_inuse) })
unfolding insert_timer
insert_timer_at t p e = rw (e, insert_timer) refl

-- With room for one more timer, the insertion of a timer that is off the list, in use and not NULL
-- gives a sorted list with it.
pub insert_timer-IsPending :
    (t : Timers) (xs : List Ptr) (p : Ptr)
    → Chain t.next t.pending_timers xs
    → Sorted t.time_out xs
    → (xs ≢ [] → t.next_timeout ≡ t.time_out t.pending_timers)
    → ((a : Ptr) → a ≢ null → in_use (t.flags a) ≡ ((a == p) || has a xs))
    → p ≢ null
    → has p xs ≡ false
    → length xs ≤ max_timers
    → (t' : Timers) × (insert_timer t p ≡ some t')
      × IsPending t' (insert t.time_out p xs)
      × (t'.time_out ≡ t.time_out)
unfolding Linked place
insert_timer-IsPending t xs p c sorted soon used ne out room =
    let at = place t p xs in
    let found =
      find_place-place t.time_out t.next (t.time_out p) (max_timers + 1) null t.pending_timers xs c
        (omega arith) in
    let linked_in = link_timer-Linked t p xs c soon ne out in
    let (times, flags) = link_timer-fields t p at in
    let t' = link_timer t p at in
    (
      record t' { flags = update t'.flags p (bit_and (t'.flags p) timer_inuse) },
      insert_timer_at t p found,
      record {
        chain = linked_in.0;
        sorted =
            subst (λ time. Sorted time (insert t.time_out p xs)) (sym times)
              (insert-Sorted t.time_out p xs sorted);
        soonest = λ _. linked_in.1 ∙ ap (λ time. time t'.pending_timers) (sym times);
        inuse = λ a some_a. has_flag a (used a some_a) (ap (λ f. f a) flags) (ap (λ f. f p) flags);
      },
      times,
    )
  where
    has_flag :
        (a : Ptr)
        → in_use (t.flags a) ≡ ((a == p) || has a xs)
        → (link_timer t p (place t p xs)).flags a ≡ t.flags a
        → (link_timer t p (place t p xs)).flags p ≡ t.flags p
        → let fl = (link_timer t p (place t p xs)).flags in
          in_use (update fl p (bit_and (fl p) timer_inuse) a) ≡ has a (insert t.time_out p xs)
    has_flag a u e e' = elim (Bool-cases (a == p)) [
      | inl is ↦
          let same : a ≡ p = (==_iff _ _).0 is in
          rw (has-insert t.time_out a p xs, is, e', in_use-bit_and (t.flags p), ← same, u, is) refl
      | inr other ↦ rw (has-insert t.time_out a p xs, other, e, u, other) refl
    ]

-- Setting the fields of a timer that is off the list leaves the list as it is.
set_timer-list :
    (t : Timers) (xs : List Ptr) (from p timeout watchdog : ℕ)
    → IsPending t xs
    → has p xs ≡ false
    → let t' = set_timer t from p timeout watchdog in
      Chain t'.next t'.pending_timers xs
      × Sorted t'.time_out xs
      × (xs ≢ [] → t'.next_timeout ≡ t'.time_out t'.pending_timers)
unfolding set_timer has
set_timer-list t [] from p timeout watchdog v out = (v.chain, v.sorted, λ ne. absurd (ne refl))
set_timer-list t (x ∷ xs) from p timeout watchdog v out =
    let off : (a : Ptr) → has a (x ∷ xs) ≡ true → (a == p) ≡ false =
      λ a m. ne_of_has a p (x ∷ xs) m out in
    let head : (t.pending_timers == p) ≡ false = rw v.chain.0 (off x (ground arith)) in
    (
      Chain-same t.pending_timers (x ∷ xs) v.chain (λ a m. rw (off a m) refl),
      Sorted-same (x ∷ xs) v.sorted (λ a m. rw (off a m) refl),
      λ ne. rw head (v.soonest ne),
    )

set_timer-inuse :
    (t : Timers) (xs : List Ptr) (from p timeout watchdog : ℕ)
    → IsPending t xs
    → (a : Ptr) → a ≢ null
    → in_use ((set_timer t from p timeout watchdog).flags a) ≡ ((a == p) || has a xs)
unfolding set_timer
set_timer-inuse t xs from p timeout watchdog v a ne = elim (Bool-cases (a == p)) [
  | inl is ↦ rw (is, in_use-bit_or (t.flags p)) refl
  | inr other ↦ rw (other, v.inuse a ne) refl
]

-- What `new_timer` did: it refuses a timer that is on the list, or a timeout of 0; otherwise the
-- timer joins the list, due `timeout` ticks from now, and no other timer is due at another time.
pub data Armed (t : Timers) (xs : List Ptr) (p timeout : ℕ) : Option (Errno × Timers) → Type 0 where
  refused : (timeout == 0) || has p xs ≡ true → Armed t xs p timeout (some (err, t))
  armed :
      {t' : Timers}
      → has p xs ≡ false
      → IsPending t' (insert t'.time_out p xs)
      → t'.time_out p ≡ (t.system_uptime + timeout) % 2 ^ 32
      → ((a : Ptr) → a ≢ p → t'.time_out a ≡ t.time_out a)
      → Armed t xs p timeout (some (ok, t'))

new_timer_accepts :
    (t : Timers) (from p timeout watchdog : ℕ) {t' : Timers}
    → (timeout == 0) ≡ false
    → in_use (t.flags p) ≡ false
    → insert_timer (set_timer t from p timeout watchdog) p ≡ some t'
    → new_timer t from p timeout watchdog ≡ some (ok, t')
unfolding new_timer
new_timer_accepts t from p timeout watchdog some_time free e = rw (some_time, free, e) refl

new_timer_refuses :
    (t : Timers) (from p timeout watchdog : ℕ)
    → (timeout == 0) || in_use (t.flags p) ≡ true
    → new_timer t from p timeout watchdog ≡ some (err, t)
unfolding new_timer
new_timer_refuses t from p timeout watchdog e = elim (Bool-cases (timeout == 0)) [
  | inl z ↦ rw z refl
  | inr nz ↦ let used : in_use (t.flags p) ≡ true = rw nz at e in rw (nz, used) refl
]

-- With the list well formed and room for one more timer, `new_timer` refuses a timeout of 0 and a
-- timer that is on the list; otherwise the timer joins the list at its place, due `timeout` ticks
-- from now, the list stays well formed, and no other timer is due at another time.
pub new_timer-Armed :
    (t : Timers) (xs : List Ptr) (from p timeout watchdog : ℕ)
    → IsPending t xs
    → p ≢ null
    → length xs ≤ max_timers
    → Armed t xs p timeout (new_timer t from p timeout watchdog)
new_timer-Armed t xs from p timeout watchdog v ne room =
    let used = v.inuse p ne in
    elim (Bool-cases ((timeout == 0) || has p xs)) [
      | inl e ↦
          subst (Armed t xs p timeout)
            (sym (new_timer_refuses t from p timeout watchdog (rw used e))) (refused e)
      | inr e ↦
          let some_time : (timeout == 0) ≡ false = ground arith in
          let out : has p xs ≡ false = rw some_time at e in
          let s = set_timer t from p timeout watchdog in
          let (c, o, soon) = set_timer-list t xs from p timeout watchdog v out in
          let (t', inserted, v', times) =
            insert_timer-IsPending s xs p c o soon (set_timer-inuse t xs from p timeout watchdog v)
              ne out room in
          let result =
            new_timer_accepts t from p timeout watchdog some_time (used ∙ out) inserted in
          subst (Armed t xs p timeout) (sym result) (
            armed out (subst (λ time. IsPending t' (insert time p xs)) (sym times) v')
              (ap (λ f. f p) times ∙ (unfold set_timer in ground arith))
              (λ a other. ap (λ f. f a) times ∙ (unfold set_timer in ground arith)))
    ]
