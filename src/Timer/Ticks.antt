-- ===== src/Timer/Ticks.antt =====
-- `do_ticks`: the timers that are due, in order.
use mathlib.Core.Path.{subst}
use winix.Prelude.{
  ℕ, zero, suc, ◌≤◌, ◌<◌, ◌≡◌, refl, ap, sym, ◌∙◌, true, false, List, [], ◌∷◌, ◌++◌, arith, leb,
  ◌==◌, if◌then◌else◌, length, Bool-cases, ==_iff, inl, inr, Option, none, some,
}
use winix.Ready.{Ptr, null}
use winix.Ready.Chain.{has}
use winix.Timer.{Timers, timer_never, do_ticks}
use winix.Timer.Pending.{Sorted, IsPending}
use winix.Timer.Dequeue.{
  dequeued, dequeue_alarm_takes, dequeue_alarm_panics, NeverIfEmpty, dequeued-IsPending,
}

-- The timers of a sorted list that are due, and the others.
unfoldable pub due : (Ptr → ℕ) → ℕ → List Ptr → List Ptr
due time now [] = []
due time now (x ∷ xs) = if leb (time x) now then x ∷ due time now xs else []

unfoldable pub not_due : (Ptr → ℕ) → ℕ → List Ptr → List Ptr
not_due time now [] = []
not_due time now (x ∷ xs) = if leb (time x) now then not_due time now xs else x ∷ xs

pub due-not_due :
    (time : Ptr → ℕ) (now : ℕ) (xs : List Ptr) → due time now xs ++ not_due time now xs ≡ xs
unfolding due not_due
due-not_due time now [] = refl
due-not_due time now (x ∷ xs) = elim (Bool-cases (leb (time x) now)) [
  | inl e ↦ rw e (ap (λ l. x ∷ l) (due-not_due time now xs))
  | inr e ↦ rw e refl
]

due-le :
    (time : Ptr → ℕ) (now a : ℕ) (xs : List Ptr) → has a (due time now xs) ≡ true → time a ≤ now
unfolding has due
due-le time now a [] m = cc
due-le time now a (x ∷ xs) m = elim (Bool-cases (leb (time x) now)) [
  | inl e ↦ elim (Bool-cases (a == x)) [
    | inl is ↦ let same : a ≡ x = (==_iff _ _).0 is in rw same (ground arith)
    | inr other ↦ due-le time now a xs (ground arith)
  ]
  | inr e ↦ absurd (ground arith)
]

not_due-lt :
    (time : Ptr → ℕ) (now a : ℕ) (xs : List Ptr)
    → Sorted time xs
    → has a (not_due time now xs) ≡ true
    → now < time a
unfolding has not_due
not_due-lt time now a [] o m = cc
not_due-lt time now a (x ∷ xs) o m = elim (Bool-cases (leb (time x) now)) [
  | inl e ↦ not_due-lt time now a xs o.1 (rw e at m)
  | inr e ↦ elim (Bool-cases (a == x)) [
    | inl is ↦ let same : a ≡ x = (==_iff _ _).0 is in rw same (ground arith)
    | inr other ↦ let le : time x ≤ time a = o.0 a (ground arith) in ground arith
  ]
]

-- Handlers that change no timer: they do `fire`.
abbrev pub Fire {ℓ} : Type ℓ → Type ℓ
Fire H = (address proc_nr time_out : ℕ) → H → H

abbrev pub firing {ℓ} :
    {H : Type ℓ} → Fire H → (address proc_nr time_out : ℕ) → Timers → H → Timers × H
firing fire address nr time t h = (t, fire address nr time h)

-- The handler of one timer, with what it is called with.
abbrev pub fire_one {ℓ} : {H : Type ℓ} → Fire H → Timers → Ptr → H → H
fire_one fire t p h = fire (t.handler p) (t.proc_nr p) (t.time_out p) h

-- The handlers of a list of timers, one after the other.
abbrev pub fire_all {ℓ} : {H : Type ℓ} → Fire H → Timers → List Ptr → H → H
fire_all fire t [] h = h
fire_all fire t (x ∷ xs) h = fire_all fire t xs (fire_one fire t x h)

module _ {ℓ} {H : Type ℓ} (fire : Fire H) where
  do_ticks_idle :
      (fuel : ℕ) (t : Timers) (h : H)
      → leb t.next_timeout t.system_uptime ≡ false
      → do_ticks (firing fire) (suc fuel) t h ≡ some (t, h)
  unfolding do_ticks
  do_ticks_idle fuel t h e = rw e refl

  do_ticks_fires :
      (fuel : ℕ) (t : Timers) (h : H)
      → leb t.next_timeout t.system_uptime ≡ true
      → (t.pending_timers == null) ≡ false
      → do_ticks (firing fire) (suc fuel) t h
        ≡ do_ticks (firing fire) fuel (dequeued t) (fire_one fire t t.pending_timers h)
  unfolding do_ticks
  do_ticks_fires fuel t h e some_timer = rw (e, dequeue_alarm_takes t some_timer) refl

  pub do_ticks_panics :
      (call : (address proc_nr time_out : ℕ) → Timers → H → Timers × H) (fuel : ℕ) (t : Timers)
      (h : H)
      → leb t.next_timeout t.system_uptime ≡ true
      → (t.pending_timers == null) ≡ true
      → do_ticks call fuel t h ≡ none
  unfolding do_ticks
  do_ticks_panics call zero t h e empty = refl
  do_ticks_panics call (suc fuel) t h e empty = rw (e, dequeue_alarm_panics t empty) refl

  -- The state that `do_ticks` leaves, and the handlers' work.
  unfoldable pub Ticked : (t : Timers) (xs : List Ptr) (h : H) → Option (Timers × H) → Type ℓ
  Ticked t xs h out =
      (t' : Timers) × (out ≡ some (t', fire_all fire t (due t.time_out t.system_uptime xs) h))
      × IsPending t' (not_due t.time_out t.system_uptime xs)
      × NeverIfEmpty t' (not_due t.time_out t.system_uptime xs)

  Ticked-idle :
      (fuel : ℕ) (t : Timers) (h : H) (xs : List Ptr)
      → leb t.next_timeout t.system_uptime ≡ false
      → due t.time_out t.system_uptime xs ≡ []
      → not_due t.time_out t.system_uptime xs ≡ xs
      → IsPending t xs
      → NeverIfEmpty t xs
      → Ticked t xs h (do_ticks (firing fire) (suc fuel) t h)
  unfolding Ticked
  Ticked-idle fuel t h xs idle none_due all_left v never =
      rw (none_due, all_left) (t, do_ticks_idle fuel t h idle, v, never)

  Ticked-later :
      (t : Timers) (x : Ptr) (xs : List Ptr) (h : H) (out : Option (Timers × H))
      → leb (t.time_out x) t.system_uptime ≡ true
      → Ticked (dequeued t) xs (fire_one fire t x h) out
      → Ticked t (x ∷ xs) h out
  unfolding Ticked due not_due
  Ticked-later t x xs h out e rest = rw e rest

  -- With more rounds than timers, `do_ticks` ends.
  do_ticks-Ticked :
      (fuel : ℕ) (t : Timers) (h : H) (xs : List Ptr)
      → IsPending t xs
      → NeverIfEmpty t xs
      → t.system_uptime < timer_never
      → length xs < fuel
      → Ticked t xs h (do_ticks (firing fire) fuel t h)
  unfolding due not_due
  do_ticks-Ticked zero t h xs v never early enough = absurd (omega arith)
  do_ticks-Ticked (suc fuel) t h [] v never early enough =
      Ticked-idle fuel t h [] (ground (arith, never refl)) refl refl v never
  do_ticks-Ticked (suc fuel) t h (x ∷ xs) v never early enough =
      let here : t.pending_timers ≡ x = v.chain.0 in
      let next : t.next_timeout ≡ t.time_out x = v.soonest (λ e. cc) ∙ ap t.time_out here in
      elim (Bool-cases (leb (t.time_out x) t.system_uptime)) [
        | inl e ↦
            let (pending, never') = dequeued-IsPending t x xs v in
            let rest =
              do_ticks-Ticked fuel (dequeued t) (fire_one fire t x h) xs pending never' early
                (omega arith) in
            let step = do_ticks_fires fuel t h (rw next e) (ground (arith, v.chain.0, v.chain.1)) in
            subst (Ticked t (x ∷ xs) h)
              (sym (
                step
                ∙ ap (λ p. do_ticks (firing fire) fuel (dequeued t) (fire_one fire t p h)) here))
              (Ticked-later t x xs h
                (do_ticks (firing fire) fuel (dequeued t) (fire_one fire t x h)) e rest)
        | inr e ↦ Ticked-idle fuel t h (x ∷ xs) (rw next e) (rw e refl) (rw e refl) v never
      ]

-- With a sorted list of pending timers, TIMER_NEVER in next_timeout if it is empty, a time before
-- TIMER_NEVER, and handlers that change no timer, `do_ticks` ends within one round more than there are timers. It runs the handlers of the first
-- timers of the list, all of which are due, and leaves the others, none of which is due, again with
-- TIMER_NEVER in next_timeout if there are none.
pub do_ticks-due {ℓ} :
    {H : Type ℓ} (fire : Fire H) (t : Timers) (h : H) (xs : List Ptr) (fuel : ℕ)
    → IsPending t xs
    → NeverIfEmpty t xs
    → t.system_uptime < timer_never
    → length xs < fuel
    → (fired left : List Ptr) × (t' : Timers) × (do_ticks (firing fire) fuel t h
        ≡ some (t', fire_all fire t fired h))
      × (fired ++ left ≡ xs)
      × ((a : Ptr) → has a fired ≡ true → t.time_out a ≤ t.system_uptime)
      × ((a : Ptr) → has a left ≡ true → t.system_uptime < t.time_out a)
      × IsPending t' left
      × NeverIfEmpty t' left
unfolding Ticked
do_ticks-due fire t h xs fuel v never early enough =
    let (t', e, v', never') = do_ticks-Ticked fire fuel t h xs v never early enough in
    let now = t.system_uptime in
    (
      due t.time_out now xs,
      not_due t.time_out now xs,
      t',
      e,
      due-not_due t.time_out now xs,
      (λ a m. due-le t.time_out now a xs m),
      (λ a m. not_due-lt t.time_out now a xs v.sorted m),
      v',
      never',
    )
