-- ===== src/Wait.antt =====
-- wait(2), process groups and sessions: kernel/system/do_exit_wait.c (do_waitpid), do_setpgid.c,
-- do_getpgid.c, do_setsid.c and the parts of kernel/proc.c that they use. A process is its number;
-- the table gives the entry of each. An `int` is its 32-bit word, so that -1 is 2 ^ 32 - 1.
pub mod Children
pub mod Answer
mod Tests
use winix.Prelude.{
  ℕ, zero, suc, ◌+◌, ◌-◌, ◌*◌, ◌^◌, ◌%◌, ◌⊎◌, inl, inr, Bool, true, false, not, ◌&&◌, ◌||◌, Option,
  none, some, ltb, leb, ◌==◌, if◌then◌else◌, bit_and, bit_or,
}
use winix.Errno.{Errno, ok, einval, esrch}
use winix.Filp.{first_from}

abbrev pub num_procs : ℕ
num_procs = 8

abbrev pub state_waiting : ℕ
state_waiting = 4

abbrev pub state_stopped : ℕ
state_stopped = 0x20

abbrev pub state_zombie : ℕ
state_zombie = 2 ^ 31

pub record Entry : Type 0 where
  pub flags : ℕ
  pub state : ℕ
  pub pid : ℕ
  pub procgrp : ℕ
  pub session_id : ℕ
  pub parent : ℕ
  pub exit_status : ℕ
  pub sig_status : ℕ
  pub wpid : ℕ
  pub woptions : ℕ

abbrev pub Table : Type 0
Table = ℕ → Entry

abbrev pub set_entry : Table → ℕ → Entry → Table
set_entry table i e j = if j == i then e else table j

-- `flags & mask` as a condition
abbrev pub has_flag : (word mask : ℕ) → Bool
has_flag word mask = not (bit_and word mask == 0)

abbrev pub is_inuse : Entry → Bool
is_inuse e = has_flag e.flags 1

unfoldable pub get_wstats : Entry → ℕ
get_wstats child = bit_or (child.exit_status * 2 ^ 8 % 2 ^ 32) (bit_and child.sig_status 0x7f)

unfoldable pub release_zombie : Table → ℕ → Table
release_zombie table p =
    let e = table p in
    if has_flag e.state state_zombie
    then set_entry table p (record e { flags = 0; pid = 0; state = 2 ^ 32 - 1 })
    else table

-- The loop's test of `foreach_child`, then the tests by which `do_waitpid` passes a child over.
unfoldable pub is_child : Table → (parent child : ℕ) → Bool
is_child table parent child = is_inuse (table child) && ((table child).parent == parent)

unfoldable pub passed_over : Table → (parent pid child : ℕ) → Bool
passed_over table parent pid child =
    (ltb 0 pid && ltb pid (2 ^ 31) && not (pid == (table child).pid))
    || (leb (2 ^ 31) pid && ltb pid (2 ^ 32 - 1) && not (2 ^ 32 - pid == (table child).procgrp))
    || ((pid == 0) && not ((table child).procgrp == (table parent).procgrp))

abbrev pub wnohang : ℕ
wnohang = 1

abbrev pub wuntraced : ℕ
wuntraced = 2

unfoldable pub has_changed : Table → (options child : ℕ) → Bool
has_changed table options child =
    has_flag (table child).state state_zombie
    || (has_flag options wuntraced && has_flag (table child).state state_stopped)

-- The loop of `do_waitpid` with `n` entries left: the child found, or the number of children that
-- were not passed over.
unfoldable pub find_child : Table → (parent pid options n child children : ℕ) → ℕ ⊎ ℕ
find_child table parent pid options zero child children = inr children
find_child table parent pid options (suc n) child children =
    let skipped = find_child table parent pid options n (child + 1) children in
    let counted = find_child table parent pid options n (child + 1) (children + 1) in
    if not (is_child table parent child)
    then skipped
    else if passed_over table parent pid child
    then skipped
    else if has_changed table options child
    then inl child
    else counted

-- What the call answers: a pid with the child's status in m1_i2, OK, ECHILD, or no answer yet.
pub data WaitAnswer : Type 0 where
  reaped : (pid m1_i2 : ℕ) → WaitAnswer
  nothing_yet no_children suspended : WaitAnswer

-- What follows the loop. The pid is read after `release_zombie`.
unfoldable pub wait_end : Table → (parent pid options : ℕ) → ℕ ⊎ ℕ → WaitAnswer × Table
wait_end table parent pid options (inl child) =
    let table' = release_zombie table child in
    (reaped (table' child).pid (get_wstats (table child)), table')
wait_end table parent pid options (inr children) =
    let e = table parent in
    if has_flag options wnohang
    then (nothing_yet, table)
    else if children == 0
    then (no_children, table)
    else (
      suspended,
      set_entry table parent
          (record e { wpid = pid; woptions = options; state = bit_or e.state state_waiting }),
    )

unfoldable pub do_waitpid : Table → (parent pid options : ℕ) → WaitAnswer × Table
do_waitpid table parent pid options =
    wait_end table parent pid options (find_child table parent pid options num_procs 1 0)

-- SYSTEM_TASK is process 0; `none` is NULL.
unfoldable pub get_proc_by_pid : Table → (pid : ℕ) → Option ℕ
get_proc_by_pid table pid =
    if pid == 0
    then some 0
    else first_from (λ i. is_inuse (table i) && ((table i).pid == pid)) num_procs 1

abbrev negative : ℕ → Bool
negative n = leb (2 ^ 31) n

unfoldable pub do_setpgid : Table → (who pid pgid : ℕ) → Errno × Table
do_setpgid table who pid pgid =
    if negative pid || negative pgid
    then (einval, table)
    else elim (if pid == 0 then some who else get_proc_by_pid table pid) [
      | none ↦ (esrch, table)
      | some mp ↦
          let e = table mp in
          (ok, set_entry table mp (record e { procgrp = if pgid == 0 then e.pid else pgid }))
    ]

unfoldable pub do_getpgid : Table → (who pid : ℕ) → Errno ⊎ ℕ
do_getpgid table who pid =
    if negative pid
    then inl einval
    else elim (get_proc_by_pid table (if pid == 0 then (table who).pid else pid)) [
      | none ↦ inl esrch
      | some to ↦ inr (table to).procgrp
    ]

unfoldable pub do_setsid : Table → (who : ℕ) → ℕ × Table
do_setsid table who =
    let e = table who in
    (e.pid, set_entry table who (record e { session_id = e.pid; procgrp = e.pid }))
