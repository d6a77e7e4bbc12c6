-- ===== src/Cache/Chain.antt =====
-- The lru list as a list of buffers, from REAR to FRONT.
use winix.Prelude.{
  ◌≡◌, ◌≢◌, refl, ◌∙◌, sym, ap, true, false, some, List, [], ◌∷◌, ◌++◌, arith, ◌==◌, Bool-cases,
  inl, inr,
}
use winix.Ready.{Ptr, null, update}
use winix.Ready.Chain.{has, has-append, has-last_or, last_or, last_or-append, ne_of_has, ne-last_or}
use mathlib.Core.List.{nil≢cons}
use winix.Cache.{Lru, dequeue_buf, enqueue_buf}

-- From `p`, behind `before`, the links lead both ways through the distinct buffers `xs`.
abbrev pub Linked : (next prev : Ptr → Ptr) (before p : Ptr) (xs : List Ptr) → Type 0
Linked next prev before p [] = p ≡ null
Linked next prev before p (x ∷ xs) =
    (p ≡ x) × (x ≢ null) × (has x xs ≡ false) × (prev x ≡ before) × Linked next prev x (next x) xs

-- The list holds `xs` in order.
pub record IsLru (l : Lru) (xs : List Ptr) : Type 0 where
  pub linked : Linked l.next l.prev null l.rear xs
  pub front : xs ≢ [] → l.front ≡ last_or null xs

-- The links of the buffers on the list decide.
pub Linked-same :
    {next next' prev prev' : Ptr → Ptr} (before p : Ptr) (xs : List Ptr)
    → Linked next prev before p xs
    → ((a : Ptr) → has a xs ≡ true → (next' a ≡ next a) × (prev' a ≡ prev a))
    → Linked next' prev' before p xs
unfolding has
Linked-same before p [] l same = l
Linked-same {next} {prev} before p (x ∷ xs) l same =
    let (n, q) = same x (ground arith) in
    (l.0, l.1, l.2, q ∙ l.3, rw n (Linked-same x (next x) xs l.4 (λ a m. same a (ground arith))))

-- A buffer of the list is not NULL.
pub Linked-ne_null :
    (next prev : Ptr → Ptr) (before p : Ptr) (xs : List Ptr)
    → Linked next prev before p xs
    → (a : Ptr) → has a xs ≡ true
    → (a == null) ≡ false
unfolding has
Linked-ne_null next prev before p [] l a m = absurd (ground (arith, m))
Linked-ne_null next prev before p (x ∷ xs) l a m = elim (Bool-cases (a == x)) [
  | inl e ↦ ground (arith, l.1)
  | inr e ↦ Linked-ne_null next prev x (next x) xs l.4 a (ground arith)
]

-- The least recently used buffer is taken off; the list keeps one buffer at least.
pub dequeue_buf-IsLru :
    {l : Lru} (x y : Ptr) (xs : List Ptr)
    → IsLru l (x ∷ y ∷ xs)
    → ((dequeue_buf l).0 ≡ x) × IsLru ((dequeue_buf l).1) (y ∷ xs)
unfolding dequeue_buf has
dequeue_buf-IsLru {l} x y xs v =
    let second : l.next l.rear ≡ y = ap l.next v.linked.0 ∙ v.linked.4.0 in
    let filled : (l.rear == null) ≡ false = ground (arith, v.linked.0, v.linked.1) in
    let more : (y == null) ≡ false = ground (arith, v.linked.4.1) in
    let here : (y == y) ≡ true = ground arith in
    let other : (y == l.rear) ≡ false = ground (arith, v.linked.0, v.linked.2) in
    rw (filled, second, more)
      (
        v.linked.0,
        record {
          linked = (
            refl,
            v.linked.4.1,
            v.linked.4.2,
            rw (other, here) refl,
            rw other (
                Linked-same y (l.next y) xs v.linked.4.4 (λ a m.
                  let not_rear : (a == l.rear) ≡ false =
                    ground (arith, v.linked.0, v.linked.2, ne_of_has a x (y ∷ xs)) in
                  let not_second : (a == y) ≡ false = ne_of_has a y xs m v.linked.4.2 in
                  (rw not_rear refl, rw (not_rear, not_second) refl))),
          );
          front = λ _. v.front (λ e. nil≢cons (sym e));
        },
      )

-- The list with one more buffer behind its last.
Linked-snoc :
    (next prev : Ptr → Ptr) (p before q x : Ptr) (xs : List Ptr)
    → Linked next prev before q (x ∷ xs)
    → p ≢ null
    → has p (x ∷ xs) ≡ false
    → Linked
        (update (update next p null) (last_or x xs) p)
        (update prev p (last_or x xs))
        before
        q
        (x ∷ xs ++ p ∷ [])
unfolding has
Linked-snoc next prev p before q x [] l ne out =
    let here : (x == x) ≡ true = ground arith in
    let here' : (p == p) ≡ true = ground arith in
    let other : (x == p) ≡ false = ground arith in
    let other' : (p == x) ≡ false = ground arith in
    (
      l.0,
      l.1,
      ground arith,
      rw other l.3,
      rw here (refl, ne, refl, rw here' refl, rw (other', here') refl),
    )
Linked-snoc next prev p before q x (y ∷ xs) l ne out =
    let last_other : (x == last_or y xs) ≡ false = ne-last_or x y xs l.2 in
    let other : (x == p) ≡ false = ground arith in
    let off : has x (y ∷ xs ++ p ∷ []) ≡ false =
      ground (arith, has-append x (y ∷ xs) (p ∷ []), l.2, has) in
    (
      l.0,
      l.1,
      off,
      rw other l.3,
      rw (last_other, other) (Linked-snoc next prev p x (next x) y xs l.4 ne (ground arith)),
    )

-- One buffer more at the front.
pub enqueue_buf-IsLru :
    {l : Lru} (p x : Ptr) (xs : List Ptr)
    → IsLru l (x ∷ xs)
    → p ≢ null
    → has p (x ∷ xs) ≡ false
    → (l' : Lru) × (enqueue_buf l p ≡ some l') × IsLru l' (x ∷ xs ++ p ∷ [])
unfolding enqueue_buf
enqueue_buf-IsLru {l} p x xs v ne out =
    let last : l.front ≡ last_or x xs = v.front (λ e. nil≢cons (sym e)) in
    let filled : (last_or x xs == null) ≡ false =
      Linked-ne_null l.next l.prev null l.rear (x ∷ xs) v.linked (last_or x xs)
        (has-last_or x xs) in
    (
      _,
      rw (last, filled) refl,
      record {
        linked = Linked-snoc l.next l.prev p null l.rear x xs v.linked ne out;
        front = λ _. sym (last_or-append x p xs);
      },
    )

-- If dequeue_buf takes the only buffer of a well-formed list and enqueue_buf puts it back, then
-- REAR stays NULL: the next dequeue_buf answers NULL.
pub dequeue_buf_last :
    {l : Lru} (x : Ptr)
    → IsLru l (x ∷ [])
    → ((dequeue_buf l).0 ≡ x)
      × ((l' : Lru) × (enqueue_buf ((dequeue_buf l).1) x ≡ some l') × ((dequeue_buf l').0 ≡ null))
unfolding dequeue_buf enqueue_buf
dequeue_buf_last {l} x v =
    let filled : (l.rear == null) ≡ false = ground (arith, v.linked.0, v.linked.1) in
    let behind : l.next l.rear ≡ null = ap l.next v.linked.0 ∙ v.linked.4 in
    let front : l.front ≡ x = v.front (λ e. nil≢cons (sym e)) in
    let filled' : (x == null) ≡ false = ground (arith, v.linked.1) in
    rw (filled, behind, front, filled') (v.linked.0, (_, refl, refl))
