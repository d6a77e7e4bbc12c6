-- ===== src/Ready/Laws.antt =====
-- `enqueue_tail`, `enqueue_head` and `dequeue` against the list that a queue holds.
use winix.Prelude.{◌≡◌, ◌≢◌, refl, ap, true, false, List, [], ◌∷◌, ◌++◌, arith, ◌==◌}
use winix.Ready.{Ptr, null, update, Links, enqueue_tail, enqueue_head, dequeue}
use winix.Ready.Chain.{
  has, Chain, IsQueue, last_or, Chain-same, Chain-append, last_or-append, ne-last_or, ne_of_has,
}

-- The links of all processes but `p` and those of `xs` are the same.
abbrev pub SameOutside : Ptr → List Ptr → Links → Links → Type 0
SameOutside p xs s s' = (a : Ptr) → (a == p) ≡ false → has a xs ≡ false → s'.next a ≡ s.next a

-- On a queue that holds `xs`, `enqueue_tail` of a process that is not on it appends the process,
-- and changes no link but its own and those of `xs`.
pub enqueue_tail-append :
    (s : Links) (xs : List Ptr) (p : Ptr)
    → IsQueue s xs
    → p ≢ null
    → has p xs ≡ false
    → IsQueue (enqueue_tail s p) (xs ++ p ∷ []) × SameOutside p xs s (enqueue_tail s p)
unfolding enqueue_tail has
enqueue_tail-append s [] p v ne out =
    let empty : (s.q.head == null) ≡ true = ground (arith, v.chain) in
    rw empty
      (record { chain = (refl, ne, refl, ground arith); tail = λ _. refl }, λ a other _. rw other)
enqueue_tail-append s (x ∷ xs) p v ne out =
    let some_head : (s.q.head == null) ≡ false = ground (arith, v.chain) in
    let at_tail : s.q.tail ≡ last_or x xs = v.tail (λ e. cc) in
    rw (some_head, at_tail)
      (
        record {
          chain = Chain-append s.next s.q.head x xs p v.chain ne out;
          tail = λ _. rw (last_or-append x p xs);
        },
        λ a other away. rw (other, ne-last_or a x xs away),
      )

-- On a queue that holds `xs`, `enqueue_head` of a process that is not on it puts it in front, and
-- changes no link but that of the process.
pub enqueue_head-cons :
    (s : Links) (xs : List Ptr) (p : Ptr)
    → IsQueue s xs
    → p ≢ null
    → has p xs ≡ false
    → IsQueue (enqueue_head s p) (p ∷ xs) × SameOutside p [] s (enqueue_head s p)
unfolding enqueue_head has
enqueue_head-cons s [] p v ne out =
    let empty : (s.q.head == null) ≡ true = ground (arith, v.chain) in
    rw empty
      (record { chain = (refl, ne, refl, ground arith); tail = λ _. refl }, λ a other _. rw other)
enqueue_head-cons s (x ∷ xs) p v ne out =
    let some_head : (s.q.head == null) ≡ false = ground (arith, v.chain) in
    let self : update s.next p s.q.head p ≡ s.q.head = ground arith in
    let kept : Chain (update s.next p s.q.head) s.q.head (x ∷ xs) =
      Chain-same s.q.head (x ∷ xs) v.chain (λ a m. rw (ne_of_has a p (x ∷ xs) m out)) in
    rw some_head (
      record { chain = (refl, ne, out, rw self kept); tail = λ _. v.tail (λ e. cc) },
      λ a other _. rw other,
    )

-- On an empty queue `dequeue` returns NULL and changes nothing.
pub dequeue-nil : (s : Links) → IsQueue s [] → dequeue s ≡ (null, s)
unfolding dequeue
dequeue-nil s v =
    let empty : (s.q.head == null) ≡ true = ground (arith, v.chain) in
    rw empty (ground (arith, v.chain))

-- On any other queue `dequeue` returns the first process and leaves the rest in order; it changes
-- no link but that of the process.
pub dequeue-cons :
    (s : Links) (x : Ptr) (xs : List Ptr)
    → IsQueue s (x ∷ xs)
    → ((dequeue s).0 ≡ x) × IsQueue (dequeue s).1 xs × SameOutside x [] s (dequeue s).1
unfolding dequeue
dequeue-cons s x [] v =
    let some_head : (s.q.head == null) ≡ false = ground (arith, v.chain) in
    let single : (s.q.head == s.q.tail) ≡ true = ground (arith, v.chain, v.tail (λ e. cc)) in
    rw (some_head, single)
      (
        v.chain.0,
        record { chain = refl; tail = λ ne. absurd (ne refl) },
        λ a other _. ground (arith, v.chain),
      )
dequeue-cons s x (y ∷ xs) v =
    let some_head : (s.q.head == null) ≡ false = ground (arith, v.chain) in
    let more : (s.q.head == s.q.tail) ≡ false =
      rw (v.chain.0, v.tail (λ e. cc)) (ne-last_or x y xs v.chain.2) in
    let from : s.next s.q.head ≡ s.next x = ap s.next v.chain.0 in
    rw (some_head, more)
      (
        v.chain.0,
        record {
          chain = rw from (
              Chain-same (s.next x) (y ∷ xs) v.chain.3
                (λ a m. let other = ne_of_has a x (y ∷ xs) m v.chain.2 in ground (arith, v.chain)));
          tail = λ _. v.tail (λ e. cc);
        },
        λ a other _. ground (arith, v.chain),
      )
