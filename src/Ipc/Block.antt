-- ===== src/Ipc/Block.antt =====
-- What `do_send` does to the queues: a message is delivered, or the sender waits.
use winix.Prelude.{
  ℕ, ◌-◌, ◌^◌, ◌≡◌, ◌≢◌, refl, ◌∙◌, sym, ap, true, false, List, ◌∷◌, ◌==◌, arith, Bool-cases,
  ==_iff, inl, inr, ◌⊎◌, bit-bit_and, bit-not_pow, bit_xor, bit_or,
}
use mathlib.Core.Path.{subst}
use winix.Ready.{Ptr, null, update, Links, enqueue_head, queue_of}
use winix.Ready.Chain.{has, Chain, Chain-same, ne_of_has}
use winix.Ipc.{Ipc, without_flag, state_sending, state_receiving, make_ready, deliver, block_sender}
use winix.Ipc.Queued.{IsQueued, is_sending, is_receiving, is_sending-set, is_sending-receiving_off}

-- A process that is not blocked as a sender is on no queue.
pub off_queues :
    {s : Ipc} {queue : Ptr → List Ptr} (p d : Ptr)
    → IsQueued s queue
    → is_sending (s.state p) ≡ false
    → has p (queue d) ≡ false
off_queues {s} {queue} p d v idle = elim (Bool-cases (has p (queue d))) [
  | inl m ↦ absurd (ground (arith, v.sending d p m, idle))
  | inr e ↦ e
]

-- The queues stay if no sender's block is lifted and no link changes.
pub IsQueued-same :
    {s s' : Ipc} {queue : Ptr → List Ptr}
    → s'.next_sender ≡ s.next_sender
    → s'.sender_q ≡ s.sender_q
    → ((p : Ptr) → is_sending (s.state p) ≡ true → is_sending (s'.state p) ≡ true)
    → IsQueued s queue
    → IsQueued s' queue
IsQueued-same same same' states v = record {
  chain = rw (same, same') v.chain;
  sending = λ d p m. states p (v.sending d p m);
  once = v.once;
}

-- A message that was delivered to `p`: it is where `p` wants it, `p` is ready, at the head of its
-- ready queue, and the queues of senders are as they were.
pub record IsDelivered (s : Ipc) (queue : Ptr → List Ptr) (p : Ptr) (m : ℕ) (s' : Ipc)
    : Type 0 where
  pub received : s'.memory (s.message p) ≡ s.memory m
  pub released : is_receiving (s'.state p) ≡ false
  pub state : s'.state p ≡ without_flag (s.state p) state_receiving
  pub errno : s'.errno ≡ s.errno
  pub first : (s'.procs.ready_q (s.procs.priority p)).head ≡ p
  pub result : s'.reg p ≡ (s.memory m).kind
  pub queues : IsQueued s' queue

is_receiving_off : (w : ℕ) → is_receiving (without_flag w state_receiving) ≡ false
is_receiving_off w =
    bit-bit_and w (bit_xor (2 ^ 32 - 1) 2) 1 ∙ ground (arith, bit-not_pow 32 1 1 (omega arith))

-- The flag of `p` does not matter for the block as a sender.
sending_kept :
    (state : Ptr → ℕ) (p q : Ptr)
    → is_sending (state q) ≡ true
    → is_sending (update state p (without_flag (state p) state_receiving) q) ≡ true
sending_kept state p q e = elim (Bool-cases (q == p)) [
  | inl is ↦
      let same : p ≡ q = sym ((==_iff _ _).0 is) in
      rw is (is_sending-receiving_off (state p) ∙ ap (λ r. is_sending (state r)) same ∙ e)
  | inr other ↦ rw other e
]

pub enqueue_head-head : (l : Links) (p : Ptr) → (enqueue_head l p).q.head ≡ p
unfolding enqueue_head
enqueue_head-head l p = elim (Bool-cases (l.q.head == null)) [
  | inl e ↦ rw e refl
  | inr e ↦ rw e refl
]

pub deliver-IsDelivered :
    {s : Ipc} {queue : Ptr → List Ptr} (p : Ptr) (m : ℕ)
    → IsQueued s queue
    → IsDelivered s queue p m (deliver s p m)
unfolding deliver make_ready
deliver-IsDelivered {s} {queue} p m v =
    let self : (p == p) ≡ true = ground arith in
    let here : (s.message p == s.message p) ≡ true = ground arith in
    let same_queue : (s.procs.priority p == s.procs.priority p) ≡ true = ground arith in
    record {
      received = rw here refl;
      released = rw self (is_receiving_off (s.state p));
      state = rw self refl;
      errno = refl;
      first = rw same_queue (enqueue_head-head (queue_of s.procs (s.procs.priority p)) p);
      result = rw self refl;
      queues = IsQueued-same refl refl (sending_kept s.state p) v;
    }

-- The current process waits at the head of the queue of `p`, blocked as a sender.
pub record IsWaiting (s : Ipc) (queue : Ptr → List Ptr) (current p : Ptr) (s' : Ipc) : Type 0 where
  pub queues : IsQueued s' (update queue p (current ∷ queue p))
  pub memory : s'.memory ≡ s.memory
  pub message : s'.message ≡ s.message
  pub procs : s'.procs ≡ s.procs
  pub blocked : s'.state current ≡ bit_or (s.state current) state_sending
  pub others : (q : Ptr) → (q == current) ≡ false → s'.state q ≡ s.state q

-- A process on the queues then is the current one, at `p`, or was on the same queue before.
on_queue :
    (queue : Ptr → List Ptr) (current p d q : Ptr)
    → has q (update queue p (current ∷ queue p) d) ≡ true
    → ((q ≡ current) × (d ≡ p)) ⊎ (has q (queue d) ≡ true)
unfolding has
on_queue queue current p d q m = elim (Bool-cases (d == p)) [
  | inl e ↦ elim (Bool-cases (q == current)) [
    | inl is ↦ inl ((==_iff _ _).0 is, (==_iff _ _).0 e)
    | inr other ↦
        let same : p ≡ d = sym ((==_iff _ _).0 e) in
        inr (ap (λ r. has q (queue r)) (sym same) ∙ longer other (rw e at m))
  ]
  | inr e ↦ inr (rw e at m)
]
  where
    longer : (q == current) ≡ false → has q (current ∷ queue p) ≡ true → has q (queue p) ≡ true
    longer other m' = ground (arith, m', other)

pub block_sender-IsWaiting :
    {s : Ipc} {queue : Ptr → List Ptr} (current p : Ptr)
    → IsQueued s queue
    → current ≢ null
    → is_sending (s.state current) ≡ false
    → IsWaiting s queue current p (block_sender s current p)
unfolding block_sender
block_sender-IsWaiting {s} {queue} current p v ne idle = record {
  queues = record { chain = linked; sending = blocked; once = single };
  memory = refl;
  message = refl;
  procs = refl;
  blocked = own_state;
  others = λ q other. rw other refl;
}
  where
    own_state :
        update s.state current (bit_or (s.state current) state_sending) current
        ≡ bit_or (s.state current) state_sending
    own_state = let self : (current == current) ≡ true = ground arith in rw self refl

    linked :
        (d : Ptr)
        → Chain
            (update s.next_sender current (s.sender_q p))
            (update s.sender_q p current d)
            (update queue p (current ∷ queue p) d)
    linked d =
        let self : (current == current) ≡ true = ground arith in
        let kept : (e : Ptr)
            → Chain (update s.next_sender current (s.sender_q p)) (s.sender_q e) (queue e) =
          λ e.
            Chain-same (s.sender_q e) (queue e) (v.chain e)
              (λ a m. rw (ne_of_has a current (queue e) m (off_queues current e v idle)) refl) in
        elim (Bool-cases (d == p)) [
          | inl e ↦ rw (e, self) (refl, ne, off_queues current p v idle, kept p)
          | inr e ↦ rw e (kept d)
        ]

    blocked :
        (d q : Ptr)
        → has q (update queue p (current ∷ queue p) d) ≡ true
        → is_sending (update s.state current (bit_or (s.state current) state_sending) q) ≡ true
    blocked d q m = elim (Bool-cases (q == current)) [
      | inl e ↦ rw e (is_sending-set (s.state current))
      | inr e ↦ rw e (elim (on_queue queue current p d q m) [
        | inl (is, _) ↦ absurd (ground (arith, is, e))
        | inr m' ↦ v.sending d q m'
      ])
    ]

    nowhere : (d q : Ptr) → q ≡ current → has q (queue d) ≡ true → ⊥
    nowhere d q is m =
        let off = off_queues current d v idle in
        absurd (ground (arith, subst (λ r. has r (queue d) ≡ true) is m, off))

    single :
        (d e q : Ptr)
        → has q (update queue p (current ∷ queue p) d) ≡ true
        → has q (update queue p (current ∷ queue p) e) ≡ true
        → d ≡ e
    single d e q m m' = elim (on_queue queue current p d q m) [
      | inl (is, at) ↦ elim (on_queue queue current p e q m') [
        | inl (_, at') ↦ at ∙ sym at'
        | inr on ↦ absurd (nowhere e q is on)
      ]
      | inr on ↦ elim (on_queue queue current p e q m') [
        | inl (is, _) ↦ absurd (nowhere d q is on)
        | inr on' ↦ v.once d e q on on'
      ]
    ]
