-- ===== src/Ipc/Notify.antt =====
-- `do_notify`: all that it does.
use winix.Prelude.{
  ℕ, ◌+◌, ◌-◌, ◌^◌, ◌≡◌, Bool, true, false, ◌&&◌, List, ◌∷◌, leb, ◌==◌, if◌then◌else◌,
}
use winix.Errno.{Errno, ok, err, esrch}
use winix.Ready.{Ptr, update}
use winix.Wait.{has_flag}
use winix.Ipc.{Ipc, Message, direct_syscall, state_killed, state_receiving}
use winix.Ipc.Queued.{IsQueued, is_process}

-- Whether the reply is turned into an error number.
abbrev pub fails : Ipc → (p : Ptr) → (m : ℕ) → Bool
fails s p m = has_flag (s.flags p) direct_syscall && leb (2 ^ 31) ((s.memory m).kind)

-- The message that is received: the one that was sent, but for the type of a failed reply.
abbrev pub reply_of : Ipc → (p : Ptr) → (m : ℕ) → Message
reply_of s p m = record (s.memory m) {
  kind = if fails s p m then 2 ^ 32 - 1 else (s.memory m).kind;
}

-- The reply of a direct system call, in the message at `m`: -1 for every error, which is kept as
-- `errno`.
record IsReplied (s : Ipc) (p : Ptr) (m : ℕ) (s' : Ipc) : Type 0 where
  whole : s'.memory m ≡ reply_of s p m
  errno : fails s p m ≡ true → s'.errno p + (s.memory m).kind ≡ 2 ^ 32
  senders : (s'.next_sender ≡ s.next_sender) × (s'.sender_q ≡ s.sender_q) × (s'.state ≡ s.state)
  target : (s'.message ≡ s.message) × (s'.procs ≡ s.procs)

-- What the list of notifications does: `entries` are those on the list of a process, the newest
-- first. list_add puts an entry in front of a list that is not its own and changes no list but that
-- one and the entry's.
pub record IsListAdd {Lists : Type 0} (list_add : (entry head : Ptr) → Lists → Lists)
    (entries : Lists → Ptr → List Ptr) : Type 0 where
  pub adds :
      (entry head : Ptr) (ls : Lists)
      → (entry == head) ≡ false
      → entries (list_add entry head ls) head ≡ entry ∷ entries ls head
  pub others :
      (entry head d : Ptr) (ls : Lists)
      → (d == head) ≡ false
      → (d == entry) ≡ false
      → entries (list_add entry head ls) d ≡ entries ls d

-- What `do_notify` answers and leaves, where `p` is the pointer for the number `dest` and `from` that
-- of the sender.
pub data IsNotified {Lists : Type 0} (entries : Lists → Ptr → List Ptr) (s : Ipc) (ls : Lists)
    (queue : Ptr → List Ptr) (dest : ℕ) (p from : Ptr) (m : ℕ) : Errno → Ipc → Lists → Type 0 where
  no_process : is_process s dest ≡ false → IsNotified entries s ls queue dest p from m esrch s ls
  killed :
      is_process s dest ≡ true
      → has_flag (s.state p) state_killed ≡ true
      → IsNotified entries s ls queue dest p from m err s ls
  delivered :
      {s' : Ipc}
      → is_process s dest ≡ true
      → (s.state p == state_receiving) ≡ true
      → s'.state p ≡ 0
      → (s'.procs.ready_q (s.procs.priority p)).head ≡ p
      → s'.memory (s.message p) ≡ reply_of s p m
      → s'.reg p ≡ (reply_of s p m).kind
      → (fails s p m ≡ true → s'.errno p + (s.memory m).kind ≡ 2 ^ 32)
      → IsQueued s' queue
      → IsNotified entries s ls queue dest p from m ok s' ls
  kept :
      {ls' : Lists}
      → is_process s dest ≡ true
      → has_flag (s.state p) state_killed ≡ false
      → (s.state p == state_receiving) ≡ false
      → ((from == p) ≡ false → entries ls' p ≡ from ∷ entries ls p)
      → ((d : Ptr) → (d == p) ≡ false → (d == from) ≡ false → entries ls' d ≡ entries ls d)
      → IsNotified entries s ls queue dest p from m ok
          (record s { message = update s.message from m })
          ls'
