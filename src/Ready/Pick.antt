-- ===== src/Ready/Pick.antt =====
-- `enqueue_schedule` and `pick_proc` on the whole table of ready queues.
use winix.Prelude.{
  ℕ, zero, suc, ◌+◌, ◌≤◌, ◌<◌, ◌≡◌, ◌≢◌, refl, true, false, List, [], ◌∷◌, ◌++◌, arith, ◌==◌,
  Bool-cases, ==_iff, inl, inr, Option, none, some,
}
use winix.Ready.{
  Ptr, null, update, Links, Procs, queue_of, with_queue, num_queues, enqueue_tail, dequeue,
  enqueue_schedule, pick_from, pick_proc,
}
use winix.Ready.Chain.{has, IsQueue, Chain-same, ne_of_has, has-append}
use winix.Ready.Laws.{enqueue_tail-append, dequeue-nil, dequeue-cons}

-- Queue `i` of the table holds `qs i`, and no process is on two queues.
pub record IsReady (t : Procs) (qs : ℕ → List Ptr) : Type 0 where
  pub queues : (i : ℕ) → IsQueue (queue_of t i) (qs i)
  pub apart : (i j : ℕ) (a : Ptr) → has a (qs i) ≡ true → has a (qs j) ≡ true → i ≡ j

-- A process of one queue is not on another.
off_other :
    {t : Procs} {qs : ℕ → List Ptr} (i j : ℕ) (a : Ptr)
    → IsReady t qs
    → (j == i) ≡ false
    → has a (qs j) ≡ true
    → has a (qs i) ≡ false
off_other {qs} i j a r ne on = elim (Bool-cases (has a (qs i))) [
  | inl e ↦ absurd (ground (arith, r.apart j i a on e))
  | inr e ↦ e
]

-- To change one queue: the new one holds its new list, and the links of the others stay.
with_queue-IsReady :
    {t : Procs} {qs : ℕ → List Ptr} (i : ℕ) (s : Links) (xs : List Ptr)
    → IsReady t qs
    → IsQueue s xs
    → ((j : ℕ) (a : Ptr) → (j == i) ≡ false → has a (qs j) ≡ true → s.next a ≡ t.next a)
    → ((j : ℕ) (a : Ptr) → (j == i) ≡ false → has a (qs j) ≡ true → has a xs ≡ false)
    → IsReady (with_queue t i s) (update qs i xs)
with_queue-IsReady {t} {qs} i s xs r v same out = record {
  queues = λ j. elim (Bool-cases (j == i)) [
    | inl e ↦ rw e (record { chain = v.chain; tail = v.tail })
    | inr e ↦ rw e (record {
      chain = Chain-same (t.ready_q j).head (qs j) (r.queues j).chain (λ a m. same j a e m);
      tail = (r.queues j).tail;
    })
  ];
  apart = λ j k a on on'. elim (Bool-cases (j == i)) [
    | inl e ↦ elim (Bool-cases (k == i)) [
      | inl e' ↦ ground arith
      | inr e' ↦ absurd (ground (arith, out k a e'))
    ]
    | inr e ↦ elim (Bool-cases (k == i)) [
      | inl e' ↦ absurd (ground (arith, out j a e))
      | inr e' ↦ r.apart j k a (rw e at on) (rw e' at on')
    ]
  ];
}

-- With the queues well formed and a process on none of them, `enqueue_schedule` appends the process
-- to the queue of its priority and leaves the others as they are.
pub enqueue_schedule-IsReady :
    {t : Procs} {qs : ℕ → List Ptr} (p : Ptr)
    → IsReady t qs
    → p ≢ null
    → ((i : ℕ) → has p (qs i) ≡ false)
    → let i = t.priority p in IsReady (enqueue_schedule t p) (update qs i (qs i ++ p ∷ []))
unfolding enqueue_schedule
enqueue_schedule-IsReady {t} {qs} p r ne out =
    let i = t.priority p in
    let (v, same) = enqueue_tail-append (queue_of t i) (qs i) p (r.queues i) ne (out i) in
    with_queue-IsReady i (enqueue_tail (queue_of t i) p) (qs i ++ p ∷ []) r v
      (λ j a e m. same a (ne_of_has a p (qs j) m (out j)) (off_other i j a r e m))
      (λ j a e m.
        rw (has-append a (qs i) (p ∷ []), off_other i j a r e m)
          (unfold has in ground (arith, ne_of_has a p (qs j) m (out j))))

-- What `pick_proc` may do with the `n` queues from `i` on: take the first process of the first
-- queue that is not empty, the other queues and processes left as they are; or find all empty.
pub data Picked (qs : ℕ → List Ptr) (i n : ℕ) : Option (Ptr × Procs) → Type 0 where
  took :
      {t' : Procs} {p : Ptr} (k : ℕ) (xs : List Ptr)
      → i ≤ k
      → k < i + n
      → qs k ≡ p ∷ xs
      → ((j : ℕ) → i ≤ j → j < k → qs j ≡ [])
      → IsReady t' (update qs k xs)
      → Picked qs i n (some (p, t'))
  all_empty : ((j : ℕ) → i ≤ j → j < i + n → qs j ≡ []) → Picked qs i n none

-- A queue that is found empty is written back as it was.
empty-IsReady :
    {t : Procs} {qs : ℕ → List Ptr} (i : ℕ)
    → IsReady t qs
    → IsReady (with_queue t i (queue_of t i)) qs
empty-IsReady {t} {qs} i r = record {
  queues = λ j. elim (Bool-cases (j == i)) [
    | inl e ↦
        let same : j ≡ i = (==_iff _ _).0 e in
        rw (e, ← same) (record { chain = (r.queues j).chain; tail = (r.queues j).tail })
    | inr e ↦ rw e (record { chain = (r.queues j).chain; tail = (r.queues j).tail })
  ];
  apart = r.apart;
}

-- Taking the first process of queue `i`.
taken-IsReady :
    {t : Procs} {qs : ℕ → List Ptr} (i : ℕ) (x : Ptr) (xs : List Ptr)
    → IsReady t qs
    → qs i ≡ x ∷ xs
    → IsReady (with_queue t i (dequeue (queue_of t i)).1) (update qs i xs)
taken-IsReady {t} {qs} i x xs r e =
    let (first, v, same) = dequeue-cons (queue_of t i) x xs (rw e at (r.queues i)) in
    with_queue-IsReady i (dequeue (queue_of t i)).1 xs r v
      (λ j a ne m.
        same a (ne_of_has a x (qs j) m (elsewhere j x ne (unfold has in ground arith)))
          (unfold has in refl))
      (λ j a ne m. unfold has in ground (arith, rw e at (off_other i j a r ne m)))
  where
    elsewhere : (j : ℕ) (a : Ptr) → (j == i) ≡ false → has a (x ∷ xs) ≡ true → has a (qs j) ≡ false
    elsewhere j a ne on = elim (Bool-cases (has a (qs j))) [
      | inl m ↦ absurd (ground (arith, r.apart j i a m (rw e on)))
      | inr m ↦ m
    ]

-- A round that found queue `i` empty goes on with the rest.
later :
    {qs : ℕ → List Ptr} (i n : ℕ) {out : Option (Ptr × Procs)}
    → qs i ≡ []
    → Picked qs (i + 1) n out
    → Picked qs i (suc n) out
later i n e (took k xs lo hi is before r) =
    took k xs (omega arith) (omega arith) is
      (λ j lo' hi'. elim (Bool-cases (j == i)) [
        | inl here ↦ let same : j ≡ i = (==_iff _ _).0 here in rw same e
        | inr other ↦ before j (ground arith) hi'
      ])
      r
later i n e (all_empty none_left) = all_empty (λ j lo hi. elim (Bool-cases (j == i)) [
  | inl here ↦ let same : j ≡ i = (==_iff _ _).0 here in rw same e
  | inr other ↦ none_left j (ground arith) (omega arith)
])

pick_from-Picked :
    (t : Procs) {qs : ℕ → List Ptr} (n i : ℕ) → IsReady t qs → Picked qs i n (pick_from t n i)
unfolding pick_from
pick_from-Picked t zero i r = all_empty (λ j lo hi. absurd (omega arith))
pick_from-Picked t {qs} (suc n) i r = round (λ t' r'. pick_from-Picked t' n (i + 1) r') (qs i) refl
  where
    round :
        ((t' : Procs) → IsReady t' qs → Picked qs (i + 1) n (pick_from t' n (i + 1)))
        → (l : List Ptr) → qs i ≡ l
        → Picked qs i (suc n) (pick_from t (suc n) i)
    round ih [] e =
        rw (dequeue-nil (queue_of t i) (rw e at (r.queues i)))
          (later i n e (ih (with_queue t i (queue_of t i)) (empty-IsReady i r)))
    round ih (x ∷ xs) e =
        let v = rw e at (r.queues i) in
        let first = (dequeue-cons (queue_of t i) x xs v).0 in
        let not_null : ((dequeue (queue_of t i)).0 == null) ≡ false =
          ground (arith, first, v.chain.1) in
        rw not_null (
          took i xs (omega arith) (omega arith) (rw first e) (λ j lo hi. absurd (omega arith))
            (taken-IsReady i x xs r e))

-- With the queues well formed, `pick_proc` takes the first process of the highest queue that is
-- not empty and leaves all other processes queued as they are; it panics (`none`) only if all five
-- queues are empty.
pub pick_proc-Picked :
    (t : Procs) {qs : ℕ → List Ptr} → IsReady t qs → Picked qs 0 num_queues (pick_proc t)
unfolding pick_proc
pick_proc-Picked t r = pick_from-Picked t num_queues 0 r
