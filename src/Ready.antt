-- ===== src/Ready.antt =====
-- kernel/proc.c and kernel/sched.c: the ready queues, singly linked through `proc->next`.
-- A `struct proc *` is a number, NULL is 0. `Procs` holds the fields of the process table that the
-- queues use, as functions of the pointer, and `ready_q` as a function of its index; a queue is
-- its pair of pointers, as in the code.
pub mod Chain
pub mod Laws
pub mod Remove
pub mod Tail
pub mod Pick
mod Tests
use winix.Prelude.{
  ℕ, zero, suc, ◌+◌, ◌-◌, Bool, true, false, not, ◌&&◌, Option, none, some, ltb, ◌==◌,
  if◌then◌else◌,
}
use winix.Errno.{Errno, ok, err}

abbrev pub Ptr : Type 0
Ptr = ℕ

abbrev pub null : Ptr
null = 0

-- `f` with the value at `i` replaced.
abbrev pub update {ℓ} : {A : Type ℓ} → (ℕ → A) → ℕ → A → ℕ → A
update f i a j = if j == i then a else f j

-- `q[HEAD]` and `q[TAIL]`
pub record Queue : Type 0 where
  pub head : Ptr
  pub tail : Ptr

abbrev pub queue : Ptr → Ptr → Queue
queue h t = record { head = h; tail = t }

-- The links of all processes, and one queue.
pub record Links : Type 0 where
  pub next : Ptr → Ptr
  pub q : Queue

abbrev pub links : (Ptr → Ptr) → Queue → Links
links n q = record { next = n; q = q }

unfoldable pub enqueue_tail : Links → Ptr → Links
enqueue_tail s p =
    if s.q.head == null
    then links (update s.next p null) (queue p p)
    else links (update (update s.next s.q.tail p) p null) (queue s.q.head p)

unfoldable pub enqueue_head : Links → Ptr → Links
enqueue_head s p =
    if s.q.head == null
    then links (update s.next p null) (queue p p)
    else links (update s.next p s.q.head) (queue p s.q.tail)

unfoldable pub dequeue : Links → Ptr × Links
dequeue s =
    let p = s.q.head in
    if p == null then (null, s) else (
      p,
      links (update s.next p null)
          (if s.q.head == s.q.tail then queue null null else queue (s.next p) s.q.tail),
    )

-- The walk of `dequeue_schedule` to `h`; `none` if the fuel runs out, which only a cycle of links
-- can do. It returns `curr` and `prev`.
unfoldable pub find_link :
    (Ptr → Ptr) → (h : Ptr) → (fuel : ℕ) → (prev curr : Ptr) → Option (Ptr × Ptr)
find_link next h zero prev curr = none
find_link next h (suc fuel) prev curr =
    let rest = find_link next h fuel curr (next curr) in
    if not (curr == h) && not (curr == null) then rest else some (curr, prev)

-- What follows the walk.
unfoldable unlink : Links → Ptr × Ptr → Errno × Links
unlink s (curr, prev) = if curr == null then (err, s) else (
  ok,
  if prev == null
      then links s.next (queue (s.next curr) (if s.next curr == null then null else s.q.tail))
      else links (update s.next prev (s.next curr)) s.q,
)

-- `dequeue_schedule` on the queue of `h`; there are ten processes, so no chain is longer.
abbrev pub max_procs : ℕ
max_procs = 10

unfoldable pub dequeue_schedule : Links → Ptr → Option (Errno × Links)
unfolding find_link unlink
dequeue_schedule s h = elim (find_link s.next h (max_procs + 1) null s.q.head) [
  | none ↦ none
  | some at ↦ some (unlink s at)
]

-- The process table as the scheduler sees it.
pub record Procs : Type 0 where
  pub next : Ptr → Ptr
  pub priority : Ptr → ℕ
  pub ready_q : ℕ → Queue

abbrev pub num_queues : ℕ
num_queues = 5

-- One queue of the table with the links, and the table with these put back.
abbrev pub queue_of : Procs → ℕ → Links
queue_of t i = links t.next (t.ready_q i)

abbrev pub with_queue : Procs → ℕ → Links → Procs
with_queue t i s = record t { next = s.next; ready_q = update t.ready_q i s.q }

unfoldable pub enqueue_schedule : Procs → Ptr → Procs
enqueue_schedule t p = with_queue t (t.priority p) (enqueue_tail (queue_of t (t.priority p)) p)

-- The loop of `pick_proc`, with `n` queues left from queue `i` on. After the last queue the code
-- calls PANIC, which does not return: `none`.
pick_from : Procs → (n i : ℕ) → Option (Ptr × Procs)
pick_from t zero i = none
pick_from t (suc n) i =
    let (mp, s) = dequeue (queue_of t i) in
    let rest = pick_from (with_queue t i s) n (i + 1) in
    if mp == null then rest else some (mp, with_queue t i s)

pub pick_proc : Procs → Option (Ptr × Procs)
unfolding pick_from
pick_proc t = pick_from t num_queues 0
