-- ===== src/Ipc/Tests.antt =====
-- Tests of the messages, and the examples of their theorems.
use winix.Prelude.{
  ◌+◌, ◌*◌, ◌≡◌, refl, Bool, true, false, Option, none, some, List, [], ◌∷◌, ◌==◌, if◌then◌else◌,
  arith, bit,
}
use winix.Errno.{Errno, ok, err, esrch, edeadlk}
use winix.Ready.{Ptr, null, update, queue}
use winix.Ready.Chain.{has}
use winix.Ready.Remove.{erase}
use winix.Ipc.{Ipc, get_proc, do_send, do_receive, is_sender, deliver, make_ready, block_sender}
use winix.Ipc.Queued.{IsQueued, is_receiving}
use winix.Ipc.Send.{IsSent, do_send-IsSent, waits_for}
use winix.Ipc.Receive.{IsReceived, do_receive-IsReceived}
use winix.Ipc.Exchange.{IsExchanged, do_receive-do_send}

-- Ten processes in use; process 3 waits to receive at 30, and the others run. The message at `a` is
-- of kind `a`.
abbrev start : Ipc
start = record {
  procs = record { next = λ _. 0; priority = λ _. 1; ready_q = λ _. queue 0 0 };
  state = λ p. if p == 3 then 2 else 0;
  flags = λ _. 5;
  sender_q = λ _. 0;
  next_sender = λ _. 0;
  message = λ p. p * 10;
  reg = λ _. 0;
  errno = λ _. 0;
  memory = λ a. record { src = 0; kind = a; m_u = [] };
}

abbrev nobody : Ptr → List Ptr
nobody d = []

start-IsQueued : IsQueued start nobody
unfolding has
start-IsQueued = record {
  chain = λ d. refl;
  sending = λ d p m. absurd (ground (arith, m));
  once = λ d e p m. absurd (ground (arith, m));
}

-- Notifications as lists.
abbrev Lists : Type 0
Lists = Ptr → List Ptr

abbrev is_empty : Lists → Ptr → Bool
is_empty ls p = elim (ls p) [ [] ↦ true | x ∷ xs ↦ false ]

abbrev first_of : Lists → Ptr → Ptr
first_of ls p = elim (ls p) [ [] ↦ 0 | x ∷ xs ↦ x ]

abbrev without : Ptr → Lists → Lists
without p ls d = erase p (ls d)

abbrev added : (entry head : Ptr) → Lists → Lists
added entry head ls = update ls head (entry ∷ ls head)

-- Process 1 sends to 2, which is number 1, and waits; then 2 sends to 1: both would wait.
abbrev errno_of : Option (Errno × Ipc) → Errno
errno_of none = err
errno_of (some (ret, s)) = ret

abbrev state_of : Option (Errno × Ipc) → Ipc
state_of none = start
state_of (some (ret, s)) = s

deadlock_is_found :
    (errno_of (do_send start 1 1 100) ≡ ok)
    × (errno_of (do_send (state_of (do_send start 1 1 100)) 2 0 200) ≡ edeadlk)
    × (errno_of (do_send start 1 11 100) ≡ esrch)
unfolding do_send get_proc is_sender block_sender deliver make_ready
deadlock_is_found = (refl, refl, refl)

do_send_example :
    (ret : Errno) × (s' : Ipc) × (do_send start 1 1 100 ≡ some (ret, s'))
    × IsSent start nobody 1 1 (1 + 1) 100 ret s'
unfolding bit
do_send_example =
    do_send-IsSent start nobody 1 1 100 start-IsQueued (λ d. omega arith) (ground arith) refl

do_receive_example :
    (s' : Ipc) × (ls' : Lists) × (do_receive is_empty first_of without added start nobody 1 100
      ≡ (ok, s', ls'))
    × (if is_empty nobody 1
        then (ls' ≡ nobody) × IsReceived start nobody 1 100 (nobody 1) s'
        else (ls' ≡ without (first_of nobody 1) nobody)
          × (s' ≡ record start {
            memory = update start.memory 100 (start.memory (start.message (first_of nobody 1)));
          }))
do_receive_example =
    do_receive-IsReceived is_empty first_of without added start nobody nobody 1 100 start-IsQueued

exchange_example :
    (s1 : Ipc) × (s2 : Ipc) × (do_send start 1 1 100 ≡ some (ok, s1))
    × (do_receive is_empty first_of without added s1 nobody (get_proc start 1) 200
        ≡ (ok, s2, nobody))
    × IsExchanged start nobody 1 100 200 s2
unfolding bit
exchange_example =
    do_receive-do_send is_empty first_of without added start nobody nobody 1 1 100 200
      start-IsQueued (λ d. omega arith) there free ready (ground arith) refl refl
  where
    there : (get_proc start 1 == null) ≡ false
    there = unfold get_proc in refl

    free : waits_for start nobody 1 (get_proc start 1) ≡ false
    free = unfold get_proc in refl

    ready : is_receiving (start.state (get_proc start 1)) ≡ false
    ready = unfold get_proc in refl

abbrev entries : Lists → Ptr → List Ptr
entries ls d = ls d
