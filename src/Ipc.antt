-- ===== src/Ipc.antt =====
-- kernel/wini_ipc.c, and set_reply_res_errno of kernel/system.c. A `struct proc *` is a number from
-- 1 to 10, NULL is 0; the process number i of the code is given as i + 1, so that it stands one
-- below its pointer. Messages lie at addresses. The lists of notifications are those of
-- winix/list.h, the Linux list, whose functions are parameters.
pub mod Queued
pub mod Block
pub mod Send
pub mod Receive
pub mod Exchange
pub mod Notify
mod Tests
use winix.Prelude.{
  ℕ, zero, suc, ◌+◌, ◌-◌, ◌%◌, ◌^◌, bit_and, bit_or, bit_xor, Bool, true, false, not, ◌&&◌, ◌||◌,
  Option, none, some, List, ltb, leb, ◌==◌, if◌then◌else◌,
}
use winix.Errno.{Errno, ok, err, esrch, edeadlk}
use winix.Ready.{Ptr, null, update, Procs, queue_of, with_queue, enqueue_head, max_procs}
use winix.Wait.{has_flag}

abbrev pub state_sending : ℕ
state_sending = 1

abbrev pub state_receiving : ℕ
state_receiving = 2

abbrev pub state_killed : ℕ
state_killed = 0x40

abbrev pub proc_in_use : ℕ
proc_in_use = 1

abbrev pub direct_syscall : ℕ
direct_syscall = 4

abbrev pub getcwd : ℕ
getcwd = 52

-- `reply_res` is another name of `kind`, the code's `type`.
pub record Message : Type 0 where
  pub src : ℕ
  pub kind : ℕ
  pub m_u : List ℕ

-- The fields of the process table that messages use, the ready queues, and the messages in memory.
pub record Ipc : Type 0 where
  pub procs : Procs
  pub state : Ptr → ℕ
  pub flags : Ptr → ℕ
  pub sender_q : Ptr → Ptr
  pub next_sender : Ptr → Ptr
  pub message : Ptr → ℕ
  pub reg : Ptr → ℕ
  pub errno : Ptr → ℕ
  pub memory : ℕ → Message

-- `word & ~mask`
abbrev pub without_flag : (word mask : ℕ) → ℕ
without_flag word mask = bit_and word (bit_xor (2 ^ 32 - 1) mask)

unfoldable pub get_proc : Ipc → (proc_nr : ℕ) → Ptr
get_proc s proc_nr =
    if ltb proc_nr 10 && has_flag (s.flags (proc_nr + 1)) proc_in_use then proc_nr + 1 else null

-- `enqueue_head(ready_q[p->priority], p)`
unfoldable pub make_ready : Ipc → Ptr → Ipc
make_ready s p = record s {
  procs =
      with_queue s.procs (s.procs.priority p)
        (enqueue_head (queue_of s.procs (s.procs.priority p)) p);
}

-- The walk over the senders from `xp` on: whether it meets `dest`; `none` if the fuel runs out,
-- which only a cycle of links can do.
unfoldable pub is_sender : (fuel : ℕ) → (next_sender : Ptr → Ptr) → (dest xp : Ptr) → Option Bool
is_sender zero next_sender dest xp = none
is_sender (suc fuel) next_sender dest xp =
    let rest = is_sender fuel next_sender dest (next_sender xp) in
    if xp == null then some false else if xp == dest then some true else rest

-- The message at `m` is given to a process that waits for one, which is made ready.
unfoldable pub deliver : Ipc → (dest : Ptr) → (m : ℕ) → Ipc
deliver s dest m =
    make_ready
      (record s {
        memory = update s.memory (s.message dest) (s.memory m);
        state = update s.state dest (without_flag (s.state dest) state_receiving);
        reg = update s.reg dest ((s.memory m).kind);
      })
      dest

-- The current process waits at the head of the queue of `dest`.
unfoldable pub block_sender : Ipc → (current dest : Ptr) → Ipc
block_sender s current dest = record s {
  state = update s.state current (bit_or (s.state current) state_sending);
  next_sender = update s.next_sender current (s.sender_q dest);
  sender_q = update s.sender_q dest current;
}

-- What follows the test for a deadlock.
abbrev pub send_to : Ipc → (current dest : Ptr) → (m : ℕ) → Option Bool → Option (Errno × Ipc)
send_to s current dest m none = none
send_to s current dest m (some true) = some (edeadlk, s)
send_to s current dest m (some false) = some (
  ok,
  if has_flag (s.state dest) state_receiving then deliver s dest m else block_sender s current dest,
)

unfoldable pub do_send : Ipc → (current : Ptr) → (dest m : ℕ) → Option (Errno × Ipc)
do_send s current dest m =
    let s' = record s { message = update s.message current m } in
    let p = get_proc s' dest in
    if p == null
    then some (esrch, s')
    else send_to s' current p m (
        if has_flag (s'.state p) state_sending
        then is_sender (max_procs + 1) s'.next_sender p (s'.sender_q current)
        else some false)

-- The message of the first sender is taken, and the sender made ready if nothing else blocks it.
unfoldable pub take_sender : Ipc → (current p : Ptr) → (m : ℕ) → Ipc
take_sender s current p m =
    let s' = record s {
      sender_q = update s.sender_q current (s.next_sender p);
      memory = update s.memory m (s.memory (s.message p));
      state = update s.state p (without_flag (s.state p) state_sending);
    } in
    if s'.state p == 0 then make_ready s' p else s'

-- The current process waits for a message.
unfoldable pub block_receiver : Ipc → (current : Ptr) → (m : ℕ) → Ipc
block_receiver s current m = record s {
  message = update s.message current m;
  state = update s.state current (bit_or (s.state current) state_receiving);
}

-- What `do_receive` does when no notification is there.
unfoldable pub receive_sent : Ipc → (current : Ptr) → (m : ℕ) → Ipc
receive_sent s current m =
    let p = s.sender_q current in
    if p == null then block_receiver s current m else take_sender s current p m

-- It negates a negative reply, as an `int`; `m` is the address of the message.
unfoldable pub set_reply_res_errno : Ipc → (who : Ptr) → (m : ℕ) → Ipc
set_reply_res_errno s who m =
    let reply_res = (s.memory m).kind in
    if leb (2 ^ 31) reply_res
    then record s {
      errno = update s.errno who ((2 ^ 32 - reply_res) % 2 ^ 32);
      memory =
          update s.memory m
            (record (s.memory m) { kind = if reply_res == getcwd then 0 else 2 ^ 32 - 1 });
    }
    else s

-- The reply of a direct system call, before it is delivered.
abbrev pub reply_direct : Ipc → (dest : Ptr) → (m : ℕ) → Ipc
reply_direct s dest m =
    let s' = set_reply_res_errno s dest m in
    if has_flag (s.flags dest) direct_syscall
    then record s' { flags = update s'.flags dest (without_flag (s'.flags dest) direct_syscall) }
    else s

module _ {Lists : Type 0} (list_empty : Lists → Ptr → Bool) (first_entry : Lists → Ptr → Ptr)
    (list_del : Ptr → Lists → Lists) (list_add : (entry head : Ptr) → Lists → Lists) where
  unfoldable pub do_receive : Ipc → Lists → (current : Ptr) → (m : ℕ) → Errno × Ipc × Lists
  do_receive s ls current m =
      let p = first_entry ls current in
      if not (list_empty ls current)
      then (ok, record s { memory = update s.memory m (s.memory (s.message p)) }, list_del p ls)
      else (ok, receive_sent s current m, ls)

  -- The code prints a warning for a kernel process; `none` if `src` is no process, as NULL is
  -- written through.
  unfoldable pub do_notify : Ipc → Lists → (src dest m : ℕ) → Option (Errno × Ipc × Lists)
  do_notify s ls src dest m =
      let p = get_proc s dest in
      let from = get_proc s src in
      if p == null
      then some (esrch, s, ls)
      else if has_flag (s.state p) state_killed
      then some (err, s, ls)
      else if s.state p == state_receiving
      then some (ok, deliver (reply_direct s p m) p m, ls)
      else if from == null
      then none
      else some (ok, record s { message = update s.message from m }, list_add from p ls)
