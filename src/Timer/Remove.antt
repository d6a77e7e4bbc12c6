-- ===== src/Timer/Remove.antt =====
-- `remove_timer`: the timer leaves the list; when it was the only one, `next_timeout` keeps its time.
use winix.Prelude.{
  ℕ, ◌+◌, ◌≤◌, ◌≡◌, ◌≢◌, refl, ap, ◌∙◌, true, false, List, [], ◌∷◌, arith, leb, ◌==◌, if◌then◌else◌,
  length, Bool-cases, ==_iff, inl, inr, none, some,
}
use winix.Ready.{Ptr, null, update}
use winix.Ready.Chain.{has, Chain}
use winix.Ready.Remove.{
  erase, erase_here, erase_there, before, before_here, before_there, has-before, has_there,
  find_link-before, splice, Chain-ne_null,
}
use winix.Ready.Tail.{not-has-erase}
use winix.Timer.{
  Timers, in_use, clear_inuse, max_timers, dequeue_alarm, find_timer, unlink_timer, remove_timer,
  do_ticks,
}
use winix.Timer.Pending.{IsPending, in_use-clear_inuse}
use winix.Timer.Ticks.{do_ticks_panics}
use winix.Timer.Dequeue.{dequeue_alarm_panics}
use winix.Timer.Unlink.{
  find_timer-find_link, has-erase, erase-Sorted, remove_timer_at, remove_timer_fault, without_first,
  unlink_timer_later, unlink_timer_first, unlink_timer_fault,
}

module _ (t : Timers) (p : Ptr) (xs : List Ptr) (v : IsPending t xs) (ne : p ≢ null)
    (few : length xs ≤ max_timers) where
  walk :
      find_timer t.next p (max_timers + 1) null t.pending_timers
      ≡ some ((if has p xs then p else null), before p null xs)
  walk =
      find_timer-find_link t.next p (max_timers + 1) null t.pending_timers
      ∙ find_link-before t.next p (max_timers + 1) null t.pending_timers xs v.chain ne (omega arith)

  -- The timers of the rest stay in use, `p` does not.
  flags_without :
      (a : Ptr)
      → a ≢ null
      → in_use (update t.flags p (clear_inuse (t.flags p)) a) ≡ has a (erase p xs)
  flags_without a some_a = elim (Bool-cases (a == p)) [
    | inl is ↦
        let same : a ≡ p = (==_iff _ _).0 is in
        rw
          (
            is,
            in_use-clear_inuse (t.flags p),
            same,
            not-has-erase t.next t.pending_timers p xs v.chain,
          )
          refl
    | inr other ↦ rw (other, v.inuse a some_a, has-erase a p xs other) refl
  ]

-- What removal makes of the state: the timer is off the list, and `next_timeout` changes only to
-- the time of a new first timer.
pub record Without (t : Timers) (xs : List Ptr) (p : Ptr) (t' : Timers) : Type 0 where
  pub pending : IsPending t' (erase p xs)
  pub stale : erase p xs ≡ [] → t'.next_timeout ≡ t.next_timeout
  pub clock : t'.system_uptime ≡ t.system_uptime

without_first-Without :
    (t : Timers) (x : Ptr) (xs : List Ptr)
    → IsPending t (x ∷ xs)
    → ((a : Ptr) → a ≢ null → in_use (update t.flags x (clear_inuse (t.flags x)) a) ≡ has a xs)
    → (t.next t.pending_timers ≡ t.next x)
    → let t' = without_first t in
      IsPending (record t' { flags = update t'.flags x (clear_inuse (t'.flags x)) }) xs
      × (xs ≡ [] → t'.next_timeout ≡ t.next_timeout)
unfolding without_first
without_first-Without t x [] v flags from = (
  record {
    chain = from ∙ v.chain.3;
    sorted = v.sorted.1;
    soonest = λ ne. absurd (ne refl);
    inuse = flags;
  },
  λ _. (let last : t.next t.pending_timers ≡ null = from ∙ v.chain.3 in rw last refl),
)
without_first-Without t x (y ∷ ys) v flags from =
    let more : (t.next t.pending_timers == null) ≡ false =
      ground (arith, from, v.chain.3.0, v.chain.3.1) in
    (
      record {
        chain = rw from v.chain.3;
        sorted = v.sorted.1;
        soonest = λ _. rw more refl;
        inuse = flags;
      },
      λ e. cc,
    )

-- On a list of at most eleven timers that holds `p`, `remove_timer` takes `p` off and leaves the
-- others pending; if none is left, `next_timeout` stays the time of the timer that is gone.
pub remove_timer-Without :
    (t : Timers) (xs : List Ptr) (p : Ptr)
    → IsPending t xs
    → length xs ≤ max_timers
    → has p xs ≡ true
    → (t' : Timers) × (remove_timer t p ≡ some t') × Without t xs p t'
unfolding has
remove_timer-Without t [] p v few on = cc
remove_timer-Without t (x ∷ xs) p v few on =
    let ne = Chain-ne_null t.next t.pending_timers p (x ∷ xs) v.chain on in
    let found = walk t p (x ∷ xs) v ne few in
    let flags = flags_without t p (x ∷ xs) v ne few in
    elim (Bool-cases (x == p)) [
      | inl e ↦
          let same : x ≡ p = (==_iff _ _).0 e in
          let some_head : (t.pending_timers == null) ≡ false =
            ground (arith, v.chain.0, v.chain.1) in
          let here = erase_here p x xs e in
          let (pending, stale) =
            without_first-Without t x xs v
              (rw (← same, erase_here x x xs (rw (← same) at e)) at flags) (ap t.next v.chain.0) in
          let t' = without_first t in
          (
            record t' { flags = update t'.flags p (clear_inuse (t'.flags p)) },
            remove_timer_at t p found (
                ap (λ at. unlink_timer t at) (rw (on, before_here p null x xs e) refl)
                ∙ unlink_timer_first t p some_head),
            record {
              pending = rw (here, ← same) pending;
              stale = rw here stale;
              clock = unfold without_first in refl;
            },
          )
      | inr e ↦
          let on' = has_there p x xs e on in
          let b = before p x xs in
          let prev_ne =
            Chain-ne_null t.next t.pending_timers b (x ∷ xs) v.chain (has-before p x xs) in
          let there = erase_there p x xs e in
          (
            record t {
              next = update t.next b (t.next p);
              flags = update t.flags p (clear_inuse (t.flags p));
            },
            remove_timer_at t p found (
                ap (λ at. unlink_timer t at) (rw (on, before_there p null x xs e) refl)
                ∙ unlink_timer_later t p b prev_ne ne),
            record {
              pending = record {
                chain = rw there (splice t.next p b t.pending_timers x xs refl v.chain on');
                sorted = erase-Sorted t.time_out p (x ∷ xs) v.sorted;
                soonest = λ _. v.soonest (λ e. cc);
                inuse = flags;
              };
              stale = λ _. refl;
              clock = refl;
            },
          )
    ]

-- Removing a timer that is not on the list reads through NULL.
pub remove_timer_absent :
    (t : Timers) (xs : List Ptr) (p : Ptr)
    → IsPending t xs
    → length xs ≤ max_timers
    → p ≢ null
    → has p xs ≡ false
    → remove_timer t p ≡ none
remove_timer_absent t xs p v few ne out =
    remove_timer_fault t p (walk t p xs v ne few)
      (rw out (unlink_timer_fault t p (before p null xs) (λ e. no_prev xs v.chain out e)))
  where
    no_prev :
        (ys : List Ptr)
        → Chain t.next t.pending_timers ys
        → has p ys ≡ false
        → (before p null ys == null) ≡ true
        → t.pending_timers ≡ null
    no_prev [] c off e = c
    no_prev (y ∷ ys) c off e =
        let other : (y == p) ≡ false = unfold has in ground arith in
        let on = has-before p y ys in
        let some_prev = Chain-ne_null t.next t.pending_timers (before p y ys) (y ∷ ys) c on in
        absurd (some_prev ((==_iff _ _).0 (rw (before_there p null y ys other) at e)))

-- Once the only pending timer has been removed, as soon as the time comes at which it was due,
-- `do_ticks` enters its loop with no timer pending, the call of dequeue_alarm there answers no timer,
-- as the code panics, and with no amount of fuel does `do_ticks` return, whatever the handlers do.
pub do_ticks-remove_timer {ℓ} :
    {H : Type ℓ} (t : Timers) (p : Ptr)
    → IsPending t (p ∷ [])
    → (t' : Timers) × (remove_timer t p ≡ some t')
      × IsPending t' []
      × ((call : (address proc_nr time_out : ℕ) → Timers → H → Timers × H) (fuel now : ℕ) (h : H)
          → t.time_out p ≤ now
          → (leb t'.next_timeout now ≡ true)
            × (dequeue_alarm (record t' { system_uptime = now }) ≡ none)
            × (do_ticks call fuel (record t' { system_uptime = now }) h ≡ none))
do_ticks-remove_timer t p v =
    let on : has p (p ∷ []) ≡ true = unfold has in ground arith in
    let (t', e, w) = remove_timer-Without t (p ∷ []) p v (omega arith) on in
    let none_left = erase_here p p [] (ground arith) in
    let pending : IsPending t' [] = rw none_left at w.pending in
    let timeout : t'.next_timeout ≡ t.time_out p =
      w.stale none_left ∙ v.soonest (λ e. cc) ∙ ap t.time_out v.chain.0 in
    (
      t',
      e,
      pending,
      λ call fuel now h is_time.
          let due : leb t'.next_timeout now ≡ true = rw timeout (ground arith) in
          let empty : (t'.pending_timers == null) ≡ true = ground (arith, pending.chain) in
          (
            due,
            dequeue_alarm_panics (record t' { system_uptime = now }) empty,
            do_ticks_panics (λ _ _ _ h. h) call fuel (record t' { system_uptime = now }) h due
                empty,
          ),
    )
