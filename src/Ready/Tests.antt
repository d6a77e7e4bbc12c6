-- ===== src/Ready/Tests.antt =====
-- The ready queues of kernel/proc.c on concrete processes.
use winix.Prelude.{
  ℕ, ◌≡◌, refl, true, false, List, [], ◌∷◌, ◌++◌, arith, ◌==◌, Bool-cases, inl, inr, Option, none,
  some,
}
use winix.Errno.{ok}
use winix.Ready.{
  Ptr, update, Links, links, queue, Procs, num_queues, enqueue_tail, dequeue, dequeue_schedule,
  enqueue_schedule, pick_from, pick_proc,
}
use winix.Ready.Chain.{has, Chain, IsQueue}
use winix.Ready.Remove.{erase}
use winix.Ready.Tail.{dequeue_schedule-IsQueue, dequeue_schedule_last}
use winix.Ready.Pick.{IsReady, Picked, enqueue_schedule-IsReady, pick_proc-Picked}

abbrev next3 : Ptr → Ptr
next3 = update (update (update (λ _. 0) 3 5) 5 7) 7 0

abbrev three : Links
three = links next3 (queue 3 7)

abbrev members : List Ptr
members = 3 ∷ 5 ∷ 7 ∷ []

three-IsQueue : IsQueue three members
unfolding has
three-IsQueue = record {
  chain = (refl, (λ e. cc), refl, (refl, (λ e. cc), refl, (refl, (λ e. cc), refl, refl)));
  tail = λ _. refl;
}

first_out : (dequeue three).0 ≡ 3
unfolding dequeue
first_out = refl

dequeue_schedule-IsQueue_example :
    (s' : Links) × (dequeue_schedule three 5 ≡ some (ok, s')) × IsQueue s' (erase 5 members)
dequeue_schedule-IsQueue_example =
    dequeue_schedule-IsQueue three 3 (5 ∷ 7 ∷ []) 5 three-IsQueue (omega arith) (unfold has in refl)
      refl

dequeue_schedule_last_example :
    (s' : Links) × (dequeue_schedule three 7 ≡ some (ok, s'))
    × (s'.q.tail ≡ 7)
    × Chain (enqueue_tail s' 9).next (enqueue_tail s' 9).q.head (erase 7 members)
    × (has 9 (erase 7 members) ≡ false)
dequeue_schedule_last_example =
    dequeue_schedule_last three 3 5 (7 ∷ []) 9 three-IsQueue (omega arith) (unfold has in refl)

-- Three processes of priority 2.
abbrev table : Procs
table = record { next = next3; priority = λ _. 2; ready_q = update (λ _. queue 0 0) 2 (queue 3 7) }

abbrev queues : ℕ → List Ptr
queues = update (λ _. []) 2 members

abbrev process_of : Option (Ptr × Procs) → Ptr
process_of none = 0
process_of (some (p, _)) = p

picked_first : process_of (pick_proc table) ≡ 3
unfolding pick_proc pick_from dequeue
picked_first = refl

one_queue : (i j : ℕ) (a : Ptr) → has a (queues i) ≡ true → has a (queues j) ≡ true → i ≡ j
unfolding has
one_queue i j a on on' = elim (Bool-cases (i == 2)) [
  | inl e ↦ elim (Bool-cases (j == 2)) [ inl e' ↦ ground arith | inr e' ↦ absurd (ground arith) ]
  | inr e ↦ absurd (ground arith)
]

table-IsReady : IsReady table queues
table-IsReady = record {
  queues = λ i. elim (Bool-cases (i == 2)) [
    | inl e ↦ rw e (record { chain = three-IsQueue.chain; tail = three-IsQueue.tail })
    | inr e ↦ rw e (record { chain = refl; tail = λ ne. absurd (ne refl) })
  ];
  apart = one_queue;
}

none_nine : (i : ℕ) → has 9 (queues i) ≡ false
unfolding has
none_nine i = elim (Bool-cases (i == 2)) [ inl e ↦ rw e refl | inr e ↦ rw e refl ]

enqueue_schedule-IsReady_example :
    IsReady (enqueue_schedule table 9) (update queues 2 (queues 2 ++ 9 ∷ []))
enqueue_schedule-IsReady_example = enqueue_schedule-IsReady 9 table-IsReady (λ e. cc) none_nine

pick_proc-Picked_example : Picked queues 0 num_queues (pick_proc table)
pick_proc-Picked_example = pick_proc-Picked table table-IsReady
