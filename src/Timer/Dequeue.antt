-- ===== src/Timer/Dequeue.antt =====
-- `dequeue_alarm`: the first timer is the one that is due first.
use winix.Prelude.{
  ◌≤◌, ◌≡◌, ◌≢◌, refl, ap, ◌∙◌, true, false, List, [], ◌∷◌, arith, ◌==◌, if◌then◌else◌, Bool-cases,
  ==_iff, inl, inr, none, some,
}
use winix.Ready.{Ptr, null, update}
use winix.Ready.Chain.{has, Chain, Chain-same, ne_of_has}
use winix.Timer.{Timers, in_use, clear_inuse, timer_never, dequeue_alarm}
use winix.Timer.Pending.{IsPending, in_use-clear_inuse}

-- What `dequeue_alarm` leaves of a list of pending timers.
abbrev pub dequeued : Timers → Timers
dequeued t =
    let mq = t.pending_timers in
    let rest = t.next mq in
    record t {
      pending_timers = rest;
      next_timeout = if rest == null then timer_never else t.time_out rest;
      flags = update t.flags mq (clear_inuse (t.flags mq));
      next = update t.next mq null;
    }

pub dequeue_alarm_takes :
    (t : Timers)
    → (t.pending_timers == null) ≡ false
    → dequeue_alarm t ≡ some (t.pending_timers, dequeued t)
unfolding dequeue_alarm
dequeue_alarm_takes t e = rw e refl

pub dequeue_alarm_panics : (t : Timers) → (t.pending_timers == null) ≡ true → dequeue_alarm t ≡ none
unfolding dequeue_alarm
dequeue_alarm_panics t e = rw e refl

-- The next time is right also on an empty list: never.
abbrev pub NeverIfEmpty : Timers → List Ptr → Type 0
NeverIfEmpty t xs = xs ≡ [] → t.next_timeout ≡ timer_never

pub dequeued-IsPending :
    (t : Timers) (x : Ptr) (xs : List Ptr)
    → IsPending t (x ∷ xs)
    → IsPending (dequeued t) xs × NeverIfEmpty (dequeued t) xs
unfolding has
dequeued-IsPending t x xs v =
    let p = t.pending_timers in
    let here : p ≡ x = v.chain.0 in
    let from : Chain t.next (t.next p) xs = rw here v.chain.3 in
    let off : (a : Ptr) → has a xs ≡ true → (a == p) ≡ false =
      λ a m. rw here (ne_of_has a x xs m v.chain.2) in
    (
      record {
        chain = Chain-same (t.next p) xs from (λ a m. rw (off a m) refl);
        sorted = v.sorted.1;
        soonest = λ some_left. next_is xs from some_left;
        inuse = λ a ne. flag a here (v.inuse a ne);
      },
      λ none_left. let last : t.next p ≡ null = rw none_left at from in rw last refl,
    )
  where
    next_is :
        (ys : List Ptr)
        → Chain t.next (t.next t.pending_timers) ys
        → ys ≢ []
        → (dequeued t).next_timeout ≡ t.time_out (t.next t.pending_timers)
    next_is [] c ne = absurd (ne refl)
    next_is (y ∷ ys) c ne =
        let more : (t.next t.pending_timers == null) ≡ false = ground (arith, c.0, c.1) in
        rw more refl

    flag :
        (a : Ptr)
        → t.pending_timers ≡ x
        → in_use (t.flags a) ≡ has a (x ∷ xs)
        → in_use ((dequeued t).flags a) ≡ has a xs
    flag a here u = elim (Bool-cases (a == t.pending_timers)) [
      | inl is ↦
          let same : a ≡ x = (==_iff _ _).0 is ∙ here in
          rw (is, in_use-clear_inuse (t.flags t.pending_timers), same, v.chain.2) refl
      | inr other ↦ let not_x : (a == x) ≡ false = ground arith in rw (other, u, not_x) refl
    ]

-- On an empty list `dequeue_alarm` panics (`none`); otherwise it takes the first timer, whose time
-- is the least of all, and leaves the others pending.
pub dequeue_alarm-IsPending :
    (t : Timers) (x : Ptr) (xs : List Ptr)
    → IsPending t (x ∷ xs)
    → (t' : Timers) × (dequeue_alarm t ≡ some (x, t'))
      × IsPending t' xs
      × NeverIfEmpty t' xs
      × ((a : Ptr) → has a xs ≡ true → t.time_out x ≤ t.time_out a)
dequeue_alarm-IsPending t x xs v =
    let here : t.pending_timers ≡ x = v.chain.0 in
    let (pending, never) = dequeued-IsPending t x xs v in
    (
      dequeued t,
      dequeue_alarm_takes t (ground (arith, v.chain.0, v.chain.1))
          ∙ ap (λ p. some (p, dequeued t)) here,
      pending,
      never,
      v.sorted.0,
    )
