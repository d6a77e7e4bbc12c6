-- ===== src/Ready/Tail.antt =====
-- When `dequeue_schedule` keeps the queue a queue, and when it leaves the tail on the process that
-- it removed.
use mathlib.Core.Path.{subst}
use winix.Prelude.{
  ◌≤◌, ◌≡◌, refl, sym, ◌∙◌, true, false, List, [], ◌∷◌, arith, ◌==◌, length, Bool-cases, ==_iff,
  inl, inr, some,
}
use winix.Errno.{ok}
use winix.Ready.{Ptr, null, update, Links, links, queue, dequeue_schedule, max_procs, enqueue_tail}
use winix.Ready.Chain.{has, Chain, IsQueue, last_or, Chain-same, ne_of_has, has-last_or}
use winix.Ready.Remove.{erase, erase_here, erase_there, has-erase_le, dequeue_schedule-Removed}

-- A process that is not the last leaves the last where it is.
last_or-erase :
    (d h x : Ptr) (xs : List Ptr)
    → (h == last_or x xs) ≡ false
    → last_or d (erase h (x ∷ xs)) ≡ last_or x xs
last_or-erase d h x [] ne = rw (erase_there h x [] (ground arith)) (unfold erase in refl)
last_or-erase d h x (y ∷ xs) ne = elim (Bool-cases (x == h)) [
  | inl e ↦ rw (erase_here h x (y ∷ xs) e) refl
  | inr e ↦ rw (erase_there h x (y ∷ xs) e) (last_or-erase x h y xs ne)
]

-- On a chain, a process stands once.
pub not-has-erase :
    (next : Ptr → Ptr) (p h : Ptr) (xs : List Ptr) → Chain next p xs → has h (erase h xs) ≡ false
unfolding has
not-has-erase next p h [] c = unfold erase in refl
not-has-erase next p h (x ∷ xs) c = elim (Bool-cases (x == h)) [
  | inl e ↦ let same : x ≡ h = (==_iff _ _).0 e in rw (erase_here h x xs e, ← same) c.2
  | inr e ↦ rw (erase_there h x xs e) (ground (arith, not-has-erase next (next x) h xs c.3))
]

-- On a queue of at most ten processes, `dequeue_schedule` of one that is not the last answers OK
-- and leaves a queue of the other processes in order.
pub dequeue_schedule-IsQueue :
    (s : Links) (x : Ptr) (xs : List Ptr) (h : Ptr)
    → IsQueue s (x ∷ xs)
    → length (x ∷ xs) ≤ max_procs
    → has h (x ∷ xs) ≡ true
    → (h == last_or x xs) ≡ false
    → (s' : Links) × (dequeue_schedule s h ≡ some (ok, s')) × IsQueue s' (erase h (x ∷ xs))
dequeue_schedule-IsQueue s x xs h v few on ne =
    let (s', e, r) = dequeue_schedule-Removed s (x ∷ xs) h v few on in
    (
      s',
      e,
      record {
        chain = r.chain;
        tail =
            λ some_left. r.tail some_left ∙ v.tail (λ e. cc) ∙ sym (last_or-erase null h x xs ne);
      },
    )

enqueue_tail_nonempty :
    (s : Links) (p : Ptr)
    → (s.q.head == null) ≡ false
    → enqueue_tail s p ≡ links (update (update s.next s.q.tail p) p null) (queue s.q.head p)
unfolding enqueue_tail
enqueue_tail_nonempty s p e = rw e

-- A process that is appended behind one that has left the chain does not join the chain.
enqueue_tail_dangling :
    (s : Links) (x : Ptr) (xs : List Ptr) (new : Ptr)
    → Chain s.next s.q.head (x ∷ xs)
    → has s.q.tail (x ∷ xs) ≡ false
    → has new (x ∷ xs) ≡ false
    → Chain (enqueue_tail s new).next (enqueue_tail s new).q.head (x ∷ xs)
enqueue_tail_dangling s x xs new c gone out =
    subst (λ t. Chain t.next t.q.head (x ∷ xs))
      (sym (enqueue_tail_nonempty s new (ground (arith, c.0, c.1))))
      (Chain-same s.q.head (x ∷ xs) c
        (λ a m. rw (ne_of_has a new (x ∷ xs) m out, ne_of_has a s.q.tail (x ∷ xs) m gone)))

-- On a queue of two to ten processes, `dequeue_schedule` of the last one leaves the tail pointer on
-- it: a process that `enqueue_tail` adds next is not on the chain from the head.
pub dequeue_schedule_last :
    (s : Links) (x y : Ptr) (xs : List Ptr) (new : Ptr)
    → IsQueue s (x ∷ y ∷ xs)
    → length (x ∷ y ∷ xs) ≤ max_procs
    → has new (x ∷ y ∷ xs) ≡ false
    → let h = last_or y xs in
      (s' : Links) × (dequeue_schedule s h ≡ some (ok, s'))
      × (s'.q.tail ≡ h)
      × Chain (enqueue_tail s' new).next (enqueue_tail s' new).q.head (erase h (x ∷ y ∷ xs))
      × (has new (erase h (x ∷ y ∷ xs)) ≡ false)
dequeue_schedule_last s x y xs new v few out =
    let h = last_or y xs in
    let on : has h (x ∷ y ∷ xs) ≡ true = unfold has in ground (arith, has-last_or y xs) in
    let first : (x == h) ≡ false =
      ground (arith, ne_of_has h x (y ∷ xs) (has-last_or y xs) v.chain.2) in
    let (s', e, r) = dequeue_schedule-Removed s (x ∷ y ∷ xs) h v few on in
    let shape = erase_there h x (y ∷ xs) first in
    let tail : s'.q.tail ≡ h = r.tail (rw shape (λ e. cc)) ∙ v.tail (λ e. cc) in
    let gone = not-has-erase s.next s.q.head h (x ∷ y ∷ xs) v.chain in
    let out' = has-erase_le new h (x ∷ y ∷ xs) out in
    (
      s',
      e,
      tail,
      rw shape (
          enqueue_tail_dangling s' x (erase h (y ∷ xs)) new (rw shape at r.chain)
            (rw (tail, ← shape) gone) (rw shape at out')),
      out',
    )
