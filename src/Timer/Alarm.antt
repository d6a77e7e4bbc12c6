-- ===== src/Timer/Alarm.antt =====
-- The alarm(2) system call: at most one alarm per process is pending, the one asked for last.
use mathlib.Core.Path.{subst}
use winix.Prelude.{
  ℕ, ◌+◌, ◌*◌, ◌^◌, ◌%◌, ◌≤◌, ◌<◌, ◌≡◌, ◌≢◌, refl, ap, sym, ◌∙◌, true, false, ◌||◌, List, [], ◌∷◌,
  arith, ltb, leb, ◌==◌, if◌then◌else◌, length, Bool-cases, ==_iff, inl, inr, ◌⊎◌, Option, none,
  some,
}
use winix.Errno.{Errno, ok, einval}
use winix.Ready.{Ptr, null}
use winix.Ready.Chain.{has}
use winix.Ready.Remove.{erase}
use winix.Ready.Tail.{not-has-erase}
use winix.Timer.{Timers, in_use, max_timers, get_hz, new_timer, remove_timer, do_alarm}
use winix.Timer.Pending.{IsPending}
use winix.Timer.Insert.{insert}
use winix.Timer.Arm.{Armed, refused, armed, new_timer-Armed}
use winix.Timer.Remove.{remove_timer-Without}

erase_absent : (p : Ptr) (xs : List Ptr) → has p xs ≡ false → erase p xs ≡ xs
unfolding has erase
erase_absent p [] out = refl
erase_absent p (x ∷ xs) out =
    let other : (x == p) ≡ false = ground arith in
    rw other (ap (λ l. x ∷ l) (erase_absent p xs (ground arith)))

length-erase : (p : Ptr) (xs : List Ptr) → length (erase p xs) ≤ length xs
unfolding erase
length-erase p [] = omega arith
length-erase p (x ∷ xs) = ground (arith, length-erase p xs)

-- The list with no alarm of the process on it.
Cancelled : Timers → List Ptr → Ptr → Type 0
Cancelled t xs p =
    (t' : Timers) × ((if in_use (t.flags p) then remove_timer t p else some t) ≡ some t')
    × IsPending t' (erase p xs)
    × (t'.system_uptime ≡ t.system_uptime)

cancel :
    (t : Timers) (xs : List Ptr) (p : Ptr)
    → IsPending t xs
    → length xs ≤ max_timers
    → p ≢ null
    → Cancelled t xs p
unfolding Cancelled
cancel t xs p v few ne = elim (Bool-cases (has p xs)) [
  | inl on ↦
      let (t', e, w) = remove_timer-Without t xs p v few on in
      let used : in_use (t.flags p) ≡ true = v.inuse p ne ∙ on in
      (t', (rw used e), w.pending, w.clock)
  | inr out ↦
      let used : in_use (t.flags p) ≡ false = v.inuse p ne ∙ out in
      (t, (rw used refl), rw (erase_absent p xs out) v, refl)
]

-- What `do_alarm` did: it refuses a negative number of seconds; otherwise it answers with the old
-- time of the alarm and takes the alarm off the list, and for a positive number it arms it anew.
pub data Alarmed (t : Timers) (xs : List Ptr) (p m1_i1 : ℕ)
    : Option ((Errno ⊎ ℕ) × Timers) → Type 0 where
  negative : 2 ^ 31 ≤ m1_i1 → Alarmed t xs p m1_i1 (some (inl einval, t))
  cancelled :
      {t' : Timers}
      → m1_i1 ≡ 0
      → IsPending t' (erase p xs)
      → Alarmed t xs p m1_i1 (some (inr (t.time_out p), t'))
  rearmed :
      {t' : Timers}
      → 0 < m1_i1
      → IsPending t' (insert t'.time_out p (erase p xs))
      → t'.time_out p ≡ (t.system_uptime + m1_i1 * get_hz) % 2 ^ 32
      → Alarmed t xs p m1_i1 (some (inr (t.time_out p), t'))

module _ (t : Timers) (handler proc_nr p m1_i1 : ℕ) where
  alarm_negative : 2 ^ 31 ≤ m1_i1 → do_alarm t handler proc_nr p m1_i1 ≡ some (inl einval, t)
  unfolding do_alarm
  alarm_negative e = let neg : leb (2 ^ 31) m1_i1 ≡ true = ground arith in rw neg refl

  alarm_cancels :
      {t' : Timers}
      → m1_i1 ≡ 0
      → (if in_use (t.flags p) then remove_timer t p else some t) ≡ some t'
      → do_alarm t handler proc_nr p m1_i1 ≡ some (inr (t.time_out p), t')
  unfolding do_alarm
  alarm_cancels e c =
      let nonneg : leb (2 ^ 31) m1_i1 ≡ false = ground arith in
      let no_time : ltb 0 m1_i1 ≡ false = ground arith in rw (nonneg, c, no_time) refl

  alarm_arms :
      {t' t'' : Timers} {status : Errno}
      → 0 < m1_i1
      → m1_i1 < 2 ^ 31
      → (if in_use (t.flags p) then remove_timer t p else some t) ≡ some t'
      → new_timer t' proc_nr p ((m1_i1 * get_hz) % 2 ^ 32) handler ≡ some (status, t'')
      → do_alarm t handler proc_nr p m1_i1 ≡ some (inr (t.time_out p), t'')
  unfolding do_alarm
  alarm_arms pos small c n =
      let nonneg : leb (2 ^ 31) m1_i1 ≡ false = ground arith in
      let some_time : ltb 0 m1_i1 ≡ true = ground arith in rw (nonneg, c, some_time, n) refl

-- `Armed` at a time that is not 0, for a timer that is off the list.
armed_ok :
    (t : Timers) (xs : List Ptr) (p timeout : ℕ) (out : Option (Errno × Timers))
    → (timeout == 0) || has p xs ≡ false
    → Armed t xs p timeout out
    → (t' : Timers) × (out ≡ some (ok, t'))
      × IsPending t' (insert t'.time_out p xs)
      × (t'.time_out p ≡ (t.system_uptime + timeout) % 2 ^ 32)
armed_ok t xs p timeout none free a = elim a [ ]
armed_ok t xs p timeout (some (status, t')) free (refused e) = absurd (ground arith)
armed_ok t xs p timeout (some (status, t')) free (armed {t' = t''} off v time others) =
    (t'', refl, v, time)

-- With the list well formed, and seconds that are negative or do not overflow the clock, `do_alarm`
-- returns: it refuses negative seconds; otherwise it answers with the time at which the previous alarm
-- was due, pending or not, in ticks since the start, takes that alarm off the list, and for a positive
-- number puts it back at its place, due that many seconds from now.
pub do_alarm-Alarmed :
    (t : Timers) (xs : List Ptr) (handler proc_nr p m1_i1 : ℕ)
    → IsPending t xs
    → p ≢ null
    → length xs ≤ max_timers
    → (m1_i1 * get_hz < 2 ^ 32) ⊎ (2 ^ 31 ≤ m1_i1)
    → Alarmed t xs p m1_i1 (do_alarm t handler proc_nr p m1_i1)
unfolding Cancelled
do_alarm-Alarmed t xs handler from p m v ne few (inr neg) =
    subst (Alarmed t xs p m) (sym (alarm_negative t handler from p m neg)) (negative neg)
do_alarm-Alarmed t xs handler from p m v ne few (inl fits) =
    let (t', c, v', clock) = cancel t xs p v few ne in
    elim (Bool-cases (m == 0)) [
      | inl e ↦
          let zero_seconds : m ≡ 0 = (==_iff _ _).0 e in
          subst (Alarmed t xs p m) (sym (alarm_cancels t handler from p m zero_seconds c))
            (cancelled zero_seconds v')
      | inr e ↦
          let seconds : 0 < m = ground arith in
          let ticks : (m * get_hz) % 2 ^ 32 ≡ m * get_hz = omega (arith, fits) in
          let gone = not-has-erase t.next t.pending_timers p xs v.chain in
          let room = length-erase p xs in
          let (t'', n, v'', time) =
            armed_ok t' (erase p xs) p ((m * get_hz) % 2 ^ 32)
              (new_timer t' from p ((m * get_hz) % 2 ^ 32) handler)
              (rw (ticks, gone) (ground arith))
              (new_timer-Armed t' (erase p xs) from p ((m * get_hz) % 2 ^ 32) handler v' ne
                (omega (arith, room, few))) in
          subst (Alarmed t xs p m)
            (sym (alarm_arms t handler from p m seconds (omega (arith, fits)) c n))
            (rearmed seconds v'' (
              time
              ∙ ap (λ now. (now + (m * get_hz) % 2 ^ 32) % 2 ^ 32) clock
              ∙ ap (λ n. (t.system_uptime + n) % 2 ^ 32) ticks))
    ]
