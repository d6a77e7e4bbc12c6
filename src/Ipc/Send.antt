-- ===== src/Ipc/Send.antt =====
-- `do_send`: all that it does.
use winix.Prelude.{
  ℕ, ◌+◌, ◌≤◌, ◌≡◌, ◌≢◌, refl, ◌∙◌, ap, Bool, true, false, ◌&&◌, Option, some, List, ◌==◌,
  if◌then◌else◌, arith, Bool-cases, inl, inr, length,
}
use mathlib.Core.Path.{subst}
use winix.Errno.{Errno, ok, esrch, edeadlk}
use winix.Ready.{max_procs, Ptr, null, update}
use winix.Ready.Chain.{has}
use winix.Wait.{has_flag}
use winix.Ipc.{Ipc, get_proc, is_sender, state_sending, deliver, block_sender, send_to, do_send}
use winix.Ipc.Queued.{
  IsQueued, is_process, get_proc-is_process, is_sending, is_receiving, has_flag-sending,
  has_flag-receiving, is_sender-has,
}
use winix.Ipc.Block.{
  IsQueued-same, IsDelivered, deliver-IsDelivered, IsWaiting, block_sender-IsWaiting,
}

-- The message is kept for later.
abbrev pub noted : Ipc → (current : Ptr) → (m : ℕ) → Ipc
noted s current m = record s { message = update s.message current m }

-- Whether the process `p` waits for the current one.
abbrev pub waits_for : Ipc → (Ptr → List Ptr) → (current p : Ptr) → Bool
waits_for s queue current p = is_sending (s.state p) && has p (queue current)

-- What `do_send` answers and leaves, where `p` is the pointer for the number `dest`.
pub data IsSent (s : Ipc) (queue : Ptr → List Ptr) (current : Ptr) (dest : ℕ) (p : Ptr) (m : ℕ)
    : Errno → Ipc → Type 0 where
  no_process : is_process s dest ≡ false → IsSent s queue current dest p m esrch (noted s current m)
  deadlock :
      is_process s dest ≡ true
      → waits_for s queue current p ≡ true
      → IsSent s queue current dest p m edeadlk (noted s current m)
  delivered :
      {s' : Ipc}
      → is_process s dest ≡ true
      → waits_for s queue current p ≡ false
      → is_receiving (s.state p) ≡ true
      → IsDelivered (noted s current m) queue p m s'
      → IsSent s queue current dest p m ok s'
  waits :
      {s' : Ipc}
      → is_process s dest ≡ true
      → waits_for s queue current p ≡ false
      → is_receiving (s.state p) ≡ false
      → IsWaiting (noted s current m) queue current p s'
      → IsSent s queue current dest p m ok s'

-- The test for a deadlock.
test_of : Ipc → (current p : Ptr) → (Option Bool)
test_of s current p =
    if has_flag (s.state p) state_sending
    then is_sender (max_procs + 1) s.next_sender p (s.sender_q current)
    else some false

test-waits_for :
    {s : Ipc} {queue : Ptr → List Ptr} (current p : Ptr)
    → IsQueued s queue
    → length (queue current) ≤ max_procs
    → test_of s current p ≡ some (waits_for s queue current p)
unfolding test_of
test-waits_for {s} {queue} current p v short = elim (Bool-cases (is_sending (s.state p))) [
  | inl e ↦
      rw (has_flag-sending (s.state p), e)
        (is_sender-has (max_procs + 1) s.next_sender p (s.sender_q current) (queue current)
          (v.chain current) (omega (arith, short)))
  | inr e ↦ rw (has_flag-sending (s.state p), e) refl
]

-- The two ways through the function.
do_send_refused :
    (s : Ipc) (current p : Ptr) (dest m : ℕ)
    → get_proc s dest ≡ p
    → (p == null) ≡ true
    → do_send s current dest m ≡ some (esrch, noted s current m)
unfolding do_send get_proc
do_send_refused s current p dest m at none_there = rw (at, none_there) refl

do_send_goes_on :
    (s : Ipc) (current p : Ptr) (dest m : ℕ)
    → get_proc s dest ≡ p
    → (p == null) ≡ false
    → do_send s current dest m
      ≡ send_to (noted s current m) current p m (test_of (noted s current m) current p)
unfolding do_send get_proc test_of
do_send_goes_on s current p dest m at there = rw (at, there) refl

module _ {s : Ipc} {queue : Ptr → List Ptr} (current : Ptr) (dest m : ℕ) (v : IsQueued s queue)
    (short : (d : Ptr) → length (queue d) ≤ max_procs)
    (there : (get_proc s dest == null) ≡ false) where
  noted-IsQueued : IsQueued (noted s current m) queue
  noted-IsQueued = IsQueued-same refl refl (λ _ e. e) v

  -- The test for a deadlock is done.
  do_send_tested :
      do_send s current dest m
      ≡ send_to
          (noted s current m)
          current
          (get_proc s dest)
          m
          (some (waits_for s queue current (get_proc s dest)))
  do_send_tested =
      do_send_goes_on s current (get_proc s dest) dest m refl there
      ∙ ap (send_to (noted s current m) current (get_proc s dest) m)
          (test-waits_for current (get_proc s dest) noted-IsQueued (short current))

  pub do_send_waits :
      waits_for s queue current (get_proc s dest) ≡ false
      → is_receiving (s.state (get_proc s dest)) ≡ false
      → current ≢ null
      → is_sending (s.state current) ≡ false
      → (s' : Ipc) × (do_send s current dest m ≡ some (ok, s'))
        × IsWaiting (noted s current m) queue current (get_proc s dest) s'
  do_send_waits w r ne idle = (
    block_sender (noted s current m) current (get_proc s dest),
    do_send_tested ∙ rw (w, has_flag-receiving (s.state (get_proc s dest)), r) refl,
    block_sender-IsWaiting current (get_proc s dest) noted-IsQueued ne idle,
  )

-- With well-formed queues of at most ten senders each, and a current process that is not blocked as
-- a sender, do_send returns. It answers ESRCH if the number is not one of the ten of a process with
-- the flag IN_USE, EDEADLK if the process waits to send to the current one itself; otherwise OK: the
-- message is delivered if the process is blocked as a receiver, and the current process waits at the
-- head of its queue if not. The queues stay well formed.
pub do_send-IsSent :
    (s : Ipc) (queue : Ptr → List Ptr) (current : Ptr) (dest m : ℕ)
    → IsQueued s queue
    → ((d : Ptr) → length (queue d) ≤ max_procs)
    → current ≢ null
    → is_sending (s.state current) ≡ false
    → (ret : Errno) × (s' : Ipc) × (do_send s current dest m ≡ some (ret, s'))
      × IsSent s queue current dest (dest + 1) m ret s'
do_send-IsSent s queue current dest m v short ne idle =
    let p = get_proc s dest in
    let s1 = noted s current m in
    elim (get_proc-is_process s dest) [
      | inr (off, at) ↦
          (esrch, s1, do_send_refused s current p dest m refl (ground (arith, at)), no_process off)
      | inl (on, at) ↦
          let there : (p == null) ≡ false = ground (arith, at) in
          subst
            (λ q.
              (ret : Errno) × (s' : Ipc) × (do_send s current dest m ≡ some (ret, s'))
              × IsSent s queue current dest q m ret s')
            at (go on there)
    ]
  where
    go :
        is_process s dest ≡ true
        → (get_proc s dest == null) ≡ false
        → (ret : Errno) × (s' : Ipc) × (do_send s current dest m ≡ some (ret, s'))
          × IsSent s queue current dest (get_proc s dest) m ret s'
    go on e =
        let p = get_proc s dest in
        let s1 = noted s current m in
        let run = do_send_tested current dest m v short e in
        elim (Bool-cases (waits_for s queue current p)) [
          | inl w ↦ (edeadlk, s1, run ∙ ap (λ b. send_to s1 current p m (some b)) w, deadlock on w)
          | inr w ↦ elim (Bool-cases (is_receiving (s.state p))) [
            | inl r ↦ (
              ok,
              deliver s1 p m,
              run ∙ rw (w, has_flag-receiving (s.state p), r) refl,
              delivered on w r (deliver-IsDelivered p m (noted-IsQueued current dest m v short e)),
            )
            | inr r ↦
                let (s', run', at) = do_send_waits current dest m v short e w r ne idle in
                (ok, s', run', waits on w r at)
          ]
        ]
