-- ===== src/Ipc/Exchange.antt =====
-- `do_send`, and the `do_receive` that takes its message.
use winix.Prelude.{
  ℕ, ◌≤◌, ◌≡◌, ◌≢◌, refl, ◌∙◌, sym, ap, Bool, true, false, some, List, ◌∷◌, ◌==◌, arith, Bool-cases,
  ==_iff, inl, inr, length, bit_or, bit-zero,
}
use winix.Errno.{ok}
use winix.Ready.{max_procs, Ptr, null, update}
use winix.Ipc.{Ipc, get_proc, do_send, receive_sent, do_receive, state_sending, without_flag}
use winix.Ipc.Queued.{IsQueued, is_sending, is_receiving}
use winix.Ipc.Block.{IsWaiting}
use winix.Ipc.Send.{waits_for, noted, do_send_waits}
use winix.Ipc.Receive.{IsReceived, taken, receive_sent-IsReceived}

-- What the two calls have done: `m'` has the message at `m`, and the sender runs again.
pub record IsExchanged (s : Ipc) (queue : Ptr → List Ptr) (current m m' : ℕ) (s' : Ipc)
    : Type 0 where
  pub received : s'.memory m' ≡ s.memory m
  pub runs : s'.state current ≡ 0
  pub ready : (s'.procs.ready_q (s.procs.priority current)).head ≡ current
  pub others : (q : Ptr) → (q == current) ≡ false → s'.state q ≡ s.state q
  pub queues : (q' : Ptr → List Ptr) × ((d : Ptr) → q' d ≡ queue d) × IsQueued s' q'

-- A process of state 0 that is not waited for sends to one that is not blocked as a receiver and has
-- no notification; when that process receives next, do_receive stores the message that was sent,
-- the sender is of state 0 again and at the head of its ready queue, no other process's state has
-- changed, and the queues of senders are what they were.
pub do_receive-do_send :
    {Lists : Type 0} (list_empty : Lists → Ptr → Bool) (first_entry : Lists → Ptr → Ptr)
    (list_del : Ptr → Lists → Lists) (list_add : (entry head : Ptr) → Lists → Lists) (s : Ipc)
    (ls : Lists) (queue : Ptr → List Ptr) (current : Ptr) (dest m m' : ℕ)
    → IsQueued s queue
    → ((d : Ptr) → length (queue d) ≤ max_procs)
    → (get_proc s dest == null) ≡ false
    → waits_for s queue current (get_proc s dest) ≡ false
    → is_receiving (s.state (get_proc s dest)) ≡ false
    → current ≢ null
    → s.state current ≡ 0
    → list_empty ls (get_proc s dest) ≡ true
    → (s1 : Ipc) × (s2 : Ipc) × (do_send s current dest m ≡ some (ok, s1))
      × (do_receive list_empty first_entry list_del list_add s1 ls (get_proc s dest) m'
          ≡ (ok, s2, ls))
      × IsExchanged s queue current m m' s2
unfolding do_receive
do_receive-do_send list_empty first_entry list_del list_add s ls queue current dest m m' v short
      there w r ne runs none_noted =
    let p = get_proc s dest in
    let idle : is_sending (s.state current) ≡ false = rw runs (bit-zero 0) in
    let (s1, sent, at) = do_send_waits current dest m v short there w r ne idle in
    let self : (p == p) ≡ true = ground arith in
    let first : update queue p (current ∷ queue p) p ≡ current ∷ queue p = rw self refl in
    let got =
      receive_sent-IsReceived s1 (update queue p (current ∷ queue p)) p m' (current ∷ queue p) first
        at.queues in
    (s1, receive_sent s1 p m', sent, rw none_noted refl, exchanged s1 at got)
  where
    exchanged :
        (s1 : Ipc)
        → IsWaiting (noted s current m) queue current (get_proc s dest) s1
        → IsReceived s1
            (update queue (get_proc s dest) (current ∷ queue (get_proc s dest)))
            (get_proc s dest)
            m'
            (current ∷ queue (get_proc s dest))
            (receive_sent s1 (get_proc s dest) m')
        → IsExchanged s queue current m m' (receive_sent s1 (get_proc s dest) m')
    exchanged s1 at (taken t) =
        let self : (current == current) ≡ true = ground arith in
        let own : s1.message current ≡ m = ap (λ f. f current) at.message ∙ rw self refl in
        let sending : s1.state current ≡ 1 = at.blocked ∙ ap (λ w. bit_or w state_sending) runs in
        let done : (receive_sent s1 (get_proc s dest) m').state current ≡ 0 =
          t.state ∙ ap (λ w. without_flag w state_sending) sending in
        record {
          received = t.received ∙ ap (s1.memory) own ∙ ap (λ f. f m) at.memory;
          runs = done;
          ready =
              ap (λ q. ((receive_sent s1 (get_proc s dest) m').procs.ready_q q).head)
                (ap (λ q. q.priority current) (sym at.procs))
              ∙ t.ready done;
          others = λ q other. t.others q other ∙ at.others q other;
          queues = (
            update (update queue (get_proc s dest) (current ∷ queue (get_proc s dest)))
                (get_proc s dest) (queue (get_proc s dest)),
            λ d. elim (Bool-cases (d == get_proc s dest)) [
              | inl e ↦
                  let same : get_proc s dest ≡ d = sym ((==_iff _ _).0 e) in rw e (ap queue same)
              | inr e ↦ rw e refl
            ],
            t.queues,
          );
        }
