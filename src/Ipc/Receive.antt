-- ===== src/Ipc/Receive.antt =====
-- `do_receive`: all that it does.
use winix.Prelude.{
  ℕ, ◌≡◌, refl, ◌∙◌, sym, ap, Bool, true, false, List, [], ◌∷◌, ◌==◌, if◌then◌else◌, arith,
  Bool-cases, ==_iff, inl, inr, bit-bit_or, bit-pow, bit_or,
}
use mathlib.Core.Path.{subst}
use winix.Errno.{ok}
use winix.Ready.{Ptr, null, update, queue_of}
use winix.Ready.Chain.{has, Chain, ne_of_has}
use winix.Ipc.{
  Ipc, without_flag, state_sending, state_receiving, make_ready, take_sender, block_receiver,
  receive_sent, do_receive,
}
use winix.Ipc.Queued.{IsQueued, is_sending, is_receiving, is_sending-receiving_set}
use winix.Ipc.Block.{IsQueued-same, enqueue_head-head}

-- The message of the first sender `p` was taken: `p` is not blocked as a sender any more, the other
-- senders `ps` wait on, and `p` is ready if nothing else blocks it.
pub record IsTaken (s : Ipc) (queue : Ptr → List Ptr) (current p : Ptr) (ps : List Ptr) (m : ℕ)
    (s' : Ipc) : Type 0 where
  pub received : s'.memory m ≡ s.memory (s.message p)
  pub state : s'.state p ≡ without_flag (s.state p) state_sending
  pub others : (q : Ptr) → (q == p) ≡ false → s'.state q ≡ s.state q
  pub queues : IsQueued s' (update queue current ps)
  pub ready : s'.state p ≡ 0 → (s'.procs.ready_q (s.procs.priority p)).head ≡ p

-- What `do_receive` leaves when no notification is there, for each queue of the current process.
pub data IsReceived (s : Ipc) (queue : Ptr → List Ptr) (current : Ptr) (m : ℕ)
    : List Ptr → Ipc → Type 0 where
  taken :
      {p : Ptr} {ps : List Ptr} {s' : Ipc}
      → IsTaken s queue current p ps m s'
      → IsReceived s queue current m (p ∷ ps) s'
  waits :
      {s' : Ipc}
      → is_receiving (s'.state current) ≡ true
      → s'.message current ≡ m
      → s'.memory ≡ s.memory
      → IsQueued s' queue
      → IsReceived s queue current m [] s'

is_receiving-set : (w : ℕ) → is_receiving (bit_or w state_receiving) ≡ true
is_receiving-set w = bit-bit_or w 2 1 ∙ ground (arith, bit-pow 1 1)

-- What is left of a queue was on it, and is not its first sender.
module _ {s : Ipc} {queue : Ptr → List Ptr} (current p : Ptr) (ps : List Ptr) (v : IsQueued s queue)
    (at : queue current ≡ p ∷ ps) where
  first-Chain : Chain s.next_sender (s.sender_q current) (p ∷ ps)
  first-Chain = subst (Chain s.next_sender (s.sender_q current)) at (v.chain current)

  first_on : has p (queue current) ≡ true
  first_on = rw at is_first
    where
      is_first : has p (p ∷ ps) ≡ true
      is_first = unfold has in ground arith

  was_on :
      (d q : Ptr)
      → has q (update queue current ps d) ≡ true
      → (has q (queue d) ≡ true) × ((q == p) ≡ false)
  was_on d q m = elim (Bool-cases (d == current)) [
    | inl e ↦
        let here : has q ps ≡ true = rw e at m in
        let same : current ≡ d = sym ((==_iff _ _).0 e) in
        (
          ap (λ r. has q (queue r)) (sym same) ∙ ap (has q) at ∙ later q here,
          ne_of_has q p ps here first-Chain.2,
        )
    | inr e ↦
        let there : has q (queue d) ≡ true = rw e at m in
        (
          there,
          elim (Bool-cases (q == p)) [
            | inl is ↦
                let on : has p (queue d) ≡ true =
                  subst (λ r. has r (queue d) ≡ true) ((==_iff q p).0 is) there in
                absurd (ground (arith, v.once d current p on first_on, e))
            | inr other ↦ other
          ],
        )
  ]
    where
      later : (a : Ptr) → has a ps ≡ true → has a (p ∷ ps) ≡ true
      later a on = unfold has in ground (arith, on)

  -- The queues without the first sender, in a state with its block lifted.
  IsQueued-without :
      (s' : Ipc)
      → s'.next_sender ≡ s.next_sender
      → s'.sender_q ≡ update s.sender_q current (s.next_sender p)
      → ((q : Ptr) → (q == p) ≡ false → s'.state q ≡ s.state q)
      → IsQueued s' (update queue current ps)
  IsQueued-without s' same same' others = record {
    chain = λ d.
        rw (same, same')
          (elim (Bool-cases (d == current)) [
            | inl e ↦ rw e first-Chain.3
            | inr e ↦ rw e (v.chain d)
          ]);
    sending = λ d q m.
        let (on, other) = was_on d q m in ap is_sending (others q other) ∙ v.sending d q on;
    once = λ d e q m m'. v.once d e q (was_on d q m).0 (was_on e q m').0;
  }

  pub take_sender-IsTaken : (m : ℕ) → IsTaken s queue current p ps m (take_sender s current p m)
  unfolding take_sender make_ready
  take_sender-IsTaken m =
      let self : (p == p) ≡ true = ground arith in
      let here : (m == m) ≡ true = ground arith in
      elim (Bool-cases (without_flag (s.state p) state_sending == 0)) [
        | inl e ↦
            rw (self, e)
              (record {
                received = rw here refl;
                state = rw self refl;
                others = λ q other. rw other refl;
                queues = IsQueued-without _ refl refl (λ q other. rw other refl);
                ready = λ _.
                    let same_queue : (s.procs.priority p == s.procs.priority p) ≡ true =
                      ground arith in
                    rw same_queue (enqueue_head-head (queue_of s.procs (s.procs.priority p)) p);
              })
        | inr e ↦
            rw (self, e)
              (record {
                received = rw here refl;
                state = rw self refl;
                others = λ q other. rw other refl;
                queues = IsQueued-without _ refl refl (λ q other. rw other refl);
                ready = λ zero_state. absurd (ground (arith, e, (rw self at zero_state)));
              })
      ]

receive_sent_takes :
    (s : Ipc) (current p : Ptr) (m : ℕ)
    → s.sender_q current ≡ p
    → (p == null) ≡ false
    → receive_sent s current m ≡ take_sender s current p m
unfolding receive_sent
receive_sent_takes s current p m at filled = rw (at, filled) refl

receive_sent_waits :
    (s : Ipc) (current : Ptr) (m : ℕ)
    → s.sender_q current ≡ null
    → receive_sent s current m ≡ block_receiver s current m
unfolding receive_sent
receive_sent_waits s current m at = rw at refl

block_receiver-IsReceived :
    {s : Ipc} {queue : Ptr → List Ptr} (current : Ptr) (m : ℕ)
    → IsQueued s queue
    → IsReceived s queue current m [] (block_receiver s current m)
unfolding block_receiver
block_receiver-IsReceived {s} {queue} current m v =
    let self : (current == current) ≡ true = ground arith in
    waits (rw self (is_receiving-set (s.state current))) (rw self refl) refl (
      IsQueued-same refl refl
        (λ q e. elim (Bool-cases (q == current)) [
          | inl is ↦
              let same : q ≡ current = (==_iff _ _).0 is in
              rw is (
                is_sending-receiving_set (s.state current)
                ∙ ap (λ r. is_sending (s.state r)) (sym same)
                ∙ e)
          | inr other ↦ rw other e
        ])
        v)

-- Without a notification, do_receive takes the message of the first process that waits to send to
-- the current one, or blocks the current process as a receiver if there is none.
pub receive_sent-IsReceived :
    (s : Ipc) (queue : Ptr → List Ptr) (current : Ptr) (m : ℕ) (xs : List Ptr)
    → queue current ≡ xs
    → IsQueued s queue
    → IsReceived s queue current m xs (receive_sent s current m)
receive_sent-IsReceived s queue current m [] at v =
    let empty = subst (Chain s.next_sender (s.sender_q current)) at (v.chain current) in
    rw (receive_sent_waits s current m empty) (block_receiver-IsReceived current m v)
receive_sent-IsReceived s queue current m (p ∷ ps) at v =
    let c = first-Chain current p ps v at in
    rw (receive_sent_takes s current p m c.0 (ground (arith, c.1)))
      (taken (take_sender-IsTaken current p ps v at m))

module _ {Lists : Type 0} (list_empty : Lists → Ptr → Bool) (first_entry : Lists → Ptr → Ptr)
    (list_del : Ptr → Lists → Lists) (list_add : (entry head : Ptr) → Lists → Lists) where
  -- With well-formed queues of senders, do_receive answers OK. If a notification is there, it takes
  -- the message of the first one off the list and changes nothing else. Otherwise it takes the
  -- message of the process that waited last to send to the current one, which is blocked as a
  -- sender no more and ready if nothing else blocks it, while the others wait on in order; and if
  -- none waits, the current process is blocked as a receiver. The queues stay well formed.
  pub do_receive-IsReceived :
      (s : Ipc) (ls : Lists) (queue : Ptr → List Ptr) (current : Ptr) (m : ℕ)
      → IsQueued s queue
      → (s' : Ipc) × (ls' : Lists) × (do_receive list_empty first_entry list_del list_add s ls
            current m
          ≡ (ok, s', ls'))
        × (if list_empty ls current
            then (ls' ≡ ls) × IsReceived s queue current m (queue current) s'
            else (ls' ≡ list_del (first_entry ls current) ls)
              × (s' ≡ record s {
                memory = update s.memory m (s.memory (s.message (first_entry ls current)));
              }))
  unfolding do_receive
  do_receive-IsReceived s ls queue current m v = elim (Bool-cases (list_empty ls current)) [
    | inl e ↦ (
      receive_sent s current m,
      ls,
      rw e refl,
      rw e (refl, receive_sent-IsReceived s queue current m (queue current) refl v),
    )
    | inr e ↦
        let first = first_entry ls current in
        (
          record s { memory = update s.memory m (s.memory (s.message first)) },
          list_del first ls,
          rw e refl,
          rw e (refl, refl),
        )
  ]
