-- ===== src/Timer/Tests.antt =====
-- The timers on concrete lists.
use winix.Prelude.{
  ℕ, ◌≤◌, ◌<◌, ◌≡◌, ◌≢◌, refl, true, List, [], ◌∷◌, ◌++◌, arith, leb, ◌==◌, Bool-cases, ==_iff, inl,
  inr, Option, none, some,
}
use winix.Errno.{Errno}
use winix.Ready.{Ptr, null, update}
use winix.Ready.Chain.{has}
use winix.Timer.{
  Timers, dequeue_alarm, in_use, find_place, link_timer, insert_timer, set_timer, new_timer,
  remove_timer, do_ticks, do_alarm,
}
use winix.Timer.Pending.{IsPending}
use winix.Timer.Arm.{Armed, new_timer-Armed}
use winix.Timer.Dequeue.{NeverIfEmpty}
use winix.Timer.Ticks.{Fire, firing, fire_all, do_ticks-due}
use winix.Timer.Remove.{do_ticks-remove_timer}
use winix.Timer.Alarm.{Alarmed, do_alarm-Alarmed}

-- Timers 4 and 6 are pending, due at 10 and 20; it is 12.
abbrev two_timers : Timers
two_timers = record {
  proc_nr = λ _. 1;
  time_out = update (update (λ _. 0) 4 10) 6 20;
  next = update (λ _. 0) 4 6;
  handler = λ _. 5000;
  flags = update (update (λ _. 0) 4 1) 6 1;
  pending_timers = 4;
  next_timeout = 10;
  system_uptime = 12;
}

abbrev listed : List Ptr
listed = 4 ∷ 6 ∷ []

two_timers-inuse : (a : Ptr) → a ≢ null → in_use (two_timers.flags a) ≡ has a listed
unfolding has
two_timers-inuse a ne = elim (Bool-cases (a == 6)) [
  | inl e ↦ let same : a ≡ 6 = (==_iff _ _).0 e in rw same refl
  | inr e ↦ elim (Bool-cases (a == 4)) [ inl e' ↦ rw (e, e') refl | inr e' ↦ rw (e, e') refl ]
]

four_first : (a : Ptr) → has a (6 ∷ []) ≡ true → 10 ≤ two_timers.time_out a
unfolding has
four_first a m = let same : a ≡ 6 = ground arith in rw same (omega arith)

six_last : (a : Ptr) → has a [] ≡ true → 20 ≤ two_timers.time_out a
unfolding has
six_last a m = cc

two_timers-IsPending : IsPending two_timers listed
unfolding has
two_timers-IsPending = record {
  chain = (refl, (λ e. cc), refl, (refl, (λ e. cc), refl, refl));
  sorted = (four_first, (six_last, _));
  soonest = λ _. refl;
  inuse = two_timers-inuse;
}

abbrev head_of : Option (Errno × Timers) → Ptr
head_of none = 0
head_of (some (_, t)) = t.pending_timers

-- Armed for 5 ticks from 12, timer 8 goes between the two.
armed_between : head_of (new_timer two_timers 1 8 5 5000) ≡ 4
unfolding new_timer insert_timer set_timer find_place link_timer
armed_between = refl

new_timer_example : Armed two_timers listed 8 5 (new_timer two_timers 1 8 5 5000)
new_timer_example =
    new_timer-Armed two_timers listed 1 8 5 5000 two_timers-IsPending (λ e. cc) (omega arith)

abbrev log : Fire (List ℕ)
log address nr time fired = time ∷ fired

do_ticks_example :
    (fired left : List Ptr) × (t' : Timers) × (do_ticks (firing log) 3 two_timers []
      ≡ some (t', fire_all log two_timers fired []))
    × (fired ++ left ≡ listed)
    × ((a : Ptr) → has a fired ≡ true → two_timers.time_out a ≤ 12)
    × ((a : Ptr) → has a left ≡ true → 12 < two_timers.time_out a)
    × IsPending t' left
    × NeverIfEmpty t' left
do_ticks_example =
    do_ticks-due log two_timers [] listed 3 two_timers-IsPending (λ e. cc) (omega arith)
      (omega arith)

do_alarm_example : Alarmed two_timers listed 6 2 (do_alarm two_timers 5000 1 6 2)
do_alarm_example =
    do_alarm-Alarmed two_timers listed 5000 1 6 2 two_timers-IsPending (λ e. cc) (omega arith)
      (inl (omega arith))

-- Timer 4 alone.
abbrev one_timer : Timers
one_timer = record two_timers { next = λ _. 0; flags = update (λ _. 0) 4 1 }

one_timer-inuse : (a : Ptr) → a ≢ null → in_use (one_timer.flags a) ≡ has a (4 ∷ [])
unfolding has
one_timer-inuse a ne = elim (Bool-cases (a == 4)) [ inl e ↦ rw e refl | inr e ↦ rw e refl ]

four_only : (a : Ptr) → has a [] ≡ true → 10 ≤ one_timer.time_out a
unfolding has
four_only a m = cc

one_timer-IsPending : IsPending one_timer (4 ∷ [])
unfolding has
one_timer-IsPending = record {
  chain = (refl, (λ e. cc), refl, refl);
  sorted = (four_only, _);
  soonest = λ _. refl;
  inuse = one_timer-inuse;
}

do_ticks-remove_timer_example :
    (t' : Timers) × (remove_timer one_timer 4 ≡ some t')
    × IsPending t' []
    × ((call : (address proc_nr time_out : ℕ) → Timers → List ℕ → Timers × List ℕ) (fuel now : ℕ)
          (h : List ℕ)
        → 10 ≤ now
        → (leb t'.next_timeout now ≡ true)
          × (dequeue_alarm (record t' { system_uptime = now }) ≡ none)
          × (do_ticks call fuel (record t' { system_uptime = now }) h ≡ none))
do_ticks-remove_timer_example = do_ticks-remove_timer one_timer 4 one_timer-IsPending
