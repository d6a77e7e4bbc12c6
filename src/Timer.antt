-- ===== src/Timer.antt =====
-- winix/timer.c and the ticks of kernel/clock.c: the list of pending timers, sorted by the time at
-- which they are due. A `struct timer *` is a number, NULL is 0; the state holds the timers' fields
-- as functions of the pointer, `pending_timers`, `next_timeout` and `system_uptime`. `clock_t` is
-- an unsigned word. A timer's handler is the address of a function; what a call of it does is a
-- parameter of `do_ticks`.
pub mod Pending
pub mod Insert
pub mod Link
pub mod Arm
pub mod Unlink
pub mod Remove
pub mod Alarm
pub mod Dequeue
pub mod Ticks
mod Tests
use winix.Prelude.{
  ℕ, zero, suc, ◌+◌, ◌-◌, ◌^◌, ◌%◌, Bool, true, false, not, ◌&&◌, Option, none, some, ltb, leb,
  ◌==◌, if◌then◌else◌, ◌*◌, ◌⊎◌, inl, inr, bit_and, bit_or, bit_xor,
}
use winix.Errno.{Errno, ok, err, einval}
use winix.Ready.{Ptr, null, update}

pub record Timers : Type 0 where
  pub proc_nr : Ptr → ℕ
  pub time_out : Ptr → ℕ
  pub next : Ptr → Ptr
  pub handler : Ptr → ℕ
  pub flags : Ptr → ℕ
  pub pending_timers : Ptr
  pub next_timeout : ℕ
  pub system_uptime : ℕ

abbrev pub timer_inuse : ℕ
timer_inuse = 1

-- `flags & TIMER_INUSE` as a test, `flags &= ~TIMER_INUSE`
abbrev pub in_use : ℕ → Bool
in_use f = not (bit_and f timer_inuse == 0)

abbrev pub clear_inuse : ℕ → ℕ
clear_inuse f = bit_and f (bit_xor (2 ^ 32 - 1) timer_inuse)

abbrev pub timer_never : ℕ
timer_never = 2 ^ 31 - 1

-- The alarm of each of the ten entries of the process table, and the scheduler's timer: no list of
-- timers is longer.
abbrev pub max_timers : ℕ
max_timers = 11

-- The walk of `insert_timer`: it returns `prev` and `curr`. `none` if the fuel runs out, which only
-- a cycle of links can do.
unfoldable find_place :
    (time_out : Ptr → ℕ) (next : Ptr → Ptr) (new_timeout fuel : ℕ) (prev curr : Ptr)
    → Option (Ptr × Ptr)
find_place time_out next new_timeout zero prev curr = none
find_place time_out next new_timeout (suc fuel) prev curr =
    let rest = find_place time_out next new_timeout fuel curr (next curr) in
    if not (curr == null) && ltb (time_out curr) new_timeout then rest else some (prev, curr)

-- What follows the walk, up to the flags.
unfoldable link_timer : Timers → Ptr → Ptr × Ptr → Timers
link_timer t timer (prev, curr) =
    if not (prev == null)
    then record t { next = update (update t.next prev timer) timer curr }
    else record t {
      next = update t.next timer t.pending_timers;
      pending_timers = timer;
      next_timeout = t.time_out timer;
    }

unfoldable pub insert_timer : Timers → Ptr → Option Timers
unfolding find_place link_timer
insert_timer t timer =
    elim (find_place t.time_out t.next (t.time_out timer) (max_timers + 1) null t.pending_timers) [
      | none ↦ none
      | some at ↦
          let t' = link_timer t timer at in
          some (record t' { flags = update t'.flags timer (bit_and (t'.flags timer) timer_inuse) })
    ]

-- The fields that `new_timer` sets before it inserts the timer.
unfoldable pub set_timer : Timers → (procnr_from : ℕ) → Ptr → (timeout watchdog : ℕ) → Timers
set_timer t procnr_from curr timeout watchdog = record t {
  flags = update t.flags curr (bit_or (t.flags curr) timer_inuse);
  time_out = update t.time_out curr ((t.system_uptime + timeout) % 2 ^ 32);
  handler = update t.handler curr watchdog;
  proc_nr = update t.proc_nr curr procnr_from;
  next = update t.next curr null;
}

unfoldable pub new_timer :
    Timers → (procnr_from : ℕ) → Ptr → (timeout watchdog : ℕ) → Option (Errno × Timers)
new_timer t procnr_from curr timeout watchdog =
    if timeout == 0
    then some (err, t)
    else if not (in_use (t.flags curr))
    then elim (insert_timer (set_timer t procnr_from curr timeout watchdog) curr) [
      | none ↦ none
      | some t' ↦ some (ok, t')
    ]
    else some (err, t)

-- The timer that is due first, taken off the list. On an empty list the code calls PANIC: `none`.
unfoldable pub dequeue_alarm : Timers → Option (Ptr × Timers)
dequeue_alarm t =
    let mq = t.pending_timers in
    let rest = t.next mq in
    if mq == null
    then none
    else some (
      mq,
      record t {
        pending_timers = rest;
        next_timeout = if rest == null then timer_never else t.time_out rest;
        flags = update t.flags mq (clear_inuse (t.flags mq));
        next = update t.next mq null;
      },
    )

-- The walk of `remove_timer`, as the one of `insert_timer`.
unfoldable find_timer :
    (next : Ptr → Ptr) (timer : Ptr) (fuel : ℕ) (prev curr : Ptr) → Option (Ptr × Ptr)
find_timer next timer zero prev curr = none
find_timer next timer (suc fuel) prev curr =
    let rest = find_timer next timer fuel curr (next curr) in
    if not (curr == null) && not (curr == timer) then rest else some (curr, prev)

-- What follows the walk, up to the flags. `none` where the code reads through a NULL pointer:
-- `curr->next` if the timer is not on the list, `pending_timers->next` if the list is empty.
unfoldable unlink_timer : Timers → Ptr × Ptr → Option Timers
unlink_timer t (curr, prev) =
    let rest = t.next t.pending_timers in
    if not (prev == null)
    then if curr == null then none else some (record t { next = update t.next prev (t.next curr) })
    else if t.pending_timers == null
    then none
    else some (record t {
      pending_timers = rest;
      next_timeout = if not (rest == null) then t.time_out rest else t.next_timeout;
    })

unfoldable pub remove_timer : Timers → Ptr → Option Timers
unfolding find_timer unlink_timer
remove_timer t timer = elim (find_timer t.next timer (max_timers + 1) null t.pending_timers) [
  | none ↦ none
  | some at ↦ elim (unlink_timer t at) [
    | none ↦ none
    | some t' ↦ some (record t' { flags = update t'.flags timer (clear_inuse (t'.flags timer)) })
  ]
]

-- The rounds of `do_ticks`. `call` is a call of the function at an address with a process number and
-- a time; it may change any timer, and `H` is what it changes besides. Out of fuel, or in a panic:
-- `none`.
unfoldable pub do_ticks {ℓ} :
    {H : Type ℓ}
    → (call : (address proc_nr time_out : ℕ) → Timers → H → Timers × H) → (fuel : ℕ) → Timers
    → H
    → Option (Timers × H)
do_ticks call zero t h = none
do_ticks call (suc fuel) t h =
    if leb t.next_timeout t.system_uptime
    then elim (dequeue_alarm t) [
      | none ↦ none
      | some (next_timer, t') ↦
          let (t'', h') =
            call (t'.handler next_timer) (t'.proc_nr next_timer) (t'.time_out next_timer) t' h in
          do_ticks call fuel t'' h'
    ]
    else some (t, h)

abbrev pub get_hz : ℕ
get_hz = 60

-- `do_alarm` for a process whose alarm is `alarm`: `m1_i1` is the 32-bit word of an `int`. It
-- returns its status or the time at which the previous alarm was due. `deliver_alarm` is the address
-- of that function.
unfoldable pub do_alarm :
    Timers
    → (deliver_alarm proc_nr : ℕ) → (alarm : Ptr) → (m1_i1 : ℕ) → Option ((Errno ⊎ ℕ) × Timers)
do_alarm t deliver_alarm proc_nr alarm m1_i1 =
    let prev_timeout = t.time_out alarm in
    if leb (2 ^ 31) m1_i1
    then some (inl einval, t)
    else elim (if in_use (t.flags alarm) then remove_timer t alarm else some t) [
      | none ↦ none
      | some t' ↦
          if ltb 0 m1_i1
          then elim (new_timer t' proc_nr alarm ((m1_i1 * get_hz) % 2 ^ 32) deliver_alarm) [
            | none ↦ none
            | some (_, t'') ↦ some (inr prev_timeout, t'')
          ]
          else some (inr prev_timeout, t')
    ]
