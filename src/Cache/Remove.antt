-- ===== src/Cache/Remove.antt =====
-- `rm_lru`: a buffer leaves the list from any place.
use mathlib.Core.Path.{subst}
use mathlib.Core.List.{nil≢cons}
use winix.Prelude.{
  ◌≡◌, refl, ◌∙◌, sym, ap, true, false, not, List, [], ◌∷◌, arith, ◌==◌, if◌then◌else◌, Bool-cases,
  ==_iff, inl, inr, ◌⊎◌,
}
use winix.Ready.{Ptr, null, update}
use winix.Ready.Chain.{has, last_or, ne_of_has, ne-last_or}
use winix.Ready.Remove.{erase, has-erase_le}
use winix.Cache.{Lru, rm_lru}
use winix.Cache.Chain.{Linked, IsLru, Linked-same, Linked-ne_null}

-- The links after `p` has been taken off.
abbrev next_without : (next prev : Ptr → Ptr) (p : Ptr) → Ptr → Ptr
next_without next prev p = if not (prev p == null) then update next (prev p) (next p) else next

abbrev prev_without : (next prev : Ptr → Ptr) (p : Ptr) → Ptr → Ptr
prev_without next prev p = if not (next p == null) then update prev (next p) (prev p) else prev

module _ (next prev : Ptr → Ptr) (p : Ptr) where
  -- The buffer behind `p` is on the list, or there is none.
  next_in :
      (before q : Ptr) (xs : List Ptr)
      → Linked next prev before q xs
      → has p xs ≡ true
      → (next p ≡ null) ⊎ (has (next p) xs ≡ true)
  unfolding has
  next_in before q [] l m = absurd (ground (arith, m))
  next_in before q (x ∷ []) l m = inl (ground (arith, l.4))
  next_in before q (x ∷ y ∷ xs) l m = elim (Bool-cases (p == x)) [
    | inl e ↦
        let is : p ≡ x = (==_iff _ _).0 e in
        let at : next p ≡ y = ap next is ∙ l.4.0 in
        let here : (next p == y) ≡ true = ground (arith, at) in inr (ground (arith, here))
    | inr e ↦ elim (next_in x (next x) (y ∷ xs) l.4 (ground arith)) [
      | inl z ↦ inl z
      | inr m' ↦ inr (ground (arith, m'))
    ]
  ]

  -- The buffer in front of `p` is the one before the list, or it is on the list.
  prev_in :
      (before q : Ptr) (xs : List Ptr)
      → Linked next prev before q xs
      → has p xs ≡ true
      → (((q == p) ≡ true) × (prev p ≡ before)) ⊎ (((q == p) ≡ false) × (has (prev p) xs ≡ true))
  unfolding has
  prev_in before q [] l m = absurd (ground (arith, m))
  prev_in before q (x ∷ xs) l m = elim (Bool-cases (p == x)) [
    | inl e ↦ let is : p ≡ x = (==_iff _ _).0 e in inl (ground (arith, l.0), ap prev is ∙ l.3)
    | inr e ↦
        let other : (q == p) ≡ false = ground (arith, l.0) in
        elim (prev_in x (next x) xs l.4 (ground arith)) [
          | inl (_, at) ↦
              let here : (prev p == x) ≡ true = ground (arith, at) in
              inr (other, ground (arith, here))
          | inr (_, m') ↦ inr (other, ground (arith, m'))
        ]
  ]

  next_kept : (a : Ptr) → (a == prev p) ≡ false → next_without next prev p a ≡ next a
  next_kept a other = elim (Bool-cases (prev p == null)) [
    | inl e ↦ rw e refl
    | inr e ↦ rw (e, other) refl
  ]

  prev_kept : (a : Ptr) → (a == next p) ≡ false → prev_without next prev p a ≡ prev a
  prev_kept a other = elim (Bool-cases (next p == null)) [
    | inl e ↦ rw e refl
    | inr e ↦ rw (e, other) refl
  ]

  -- The list starts with `p`.
  erase_first :
      (before : Ptr) (xs : List Ptr)
      → prev p ≡ before
      → has before xs ≡ false
      → Linked next prev p (next p) xs
      → Linked (next_without next prev p) (prev_without next prev p) before (next p) xs
  unfolding has
  erase_first before [] at out l = l
  erase_first before (y ∷ ys) at out l =
      let next_other : (y == prev p) ≡ false = ground (arith, at) in
      let filled : (next p == null) ≡ false = ground (arith, l.0, l.1) in
      let here : (y == next p) ≡ true = ground (arith, l.0) in
      (
        l.0,
        l.1,
        l.2,
        rw (filled, here) at,
        subst (λ n. Linked (next_without next prev p) (prev_without next prev p) y n ys)
            (sym (next_kept y next_other))
            (Linked-same y (next y) ys l.4 (λ a m. (
              next_kept a (ne_of_has a (prev p) ys m (ground (arith, at))),
              prev_kept a (ne_of_has a (next p) ys m (ground (arith, l.0, l.2, has))),
            ))),
      )

  not_next :
      {before q : Ptr} (x : Ptr) (xs : List Ptr)
      → Linked next prev before q (x ∷ xs)
      → has p xs ≡ true
      → (x == next p) ≡ false
  not_next x xs l on = elim (next_in x (next x) xs l.4 on) [
    | inl z ↦ ground (arith, z, l.1)
    | inr m ↦ ground (arith, ne_of_has (next p) x xs m l.2)
  ]

  -- The link of a buffer that is not `p`.
  next_at :
      {before q : Ptr} (x : Ptr) (xs : List Ptr)
      → Linked next prev before q (x ∷ xs)
      → has p xs ≡ true
      → next_without next prev p x ≡ (if next x == p then next p else next x)
  next_at x xs l on = elim (prev_in x (next x) xs l.4 on) [
    | inl (e, at) ↦
        let filled : (x == null) ≡ false = ground (arith, l.1) in
        let here : (x == x) ≡ true = ground arith in rw (e, at, filled, here) refl
    | inr (e, m) ↦ rw e (next_kept x (ground (arith, ne_of_has (prev p) x xs m l.2)))
  ]

  Linked-erase :
      (before q : Ptr) (xs : List Ptr)
      → Linked next prev before q xs
      → has p xs ≡ true
      → has before xs ≡ false
      → Linked
          (next_without next prev p)
          (prev_without next prev p)
          before
          (if q == p then next p else q)
          (erase p xs)
  unfolding has erase
  Linked-erase before q [] l m out = absurd (ground (arith, m))
  Linked-erase before q (x ∷ xs) l m out = elim (Bool-cases (x == p)) [
    | inl e ↦
        let is : x ≡ p = (==_iff _ _).0 e in
        let first : (q == p) ≡ true = ground (arith, l.0) in
        let at : prev p ≡ before = ap prev (sym is) ∙ l.3 in
        let rest = subst (λ r. Linked next prev r (next r) xs) is l.4 in
        rw (e, first) (erase_first before xs at (ground arith) rest)
    | inr e ↦
        let on : has p xs ≡ true = ground arith in
        let later : (q == p) ≡ false = ground (arith, l.0) in
        rw (e, later)
          (
            l.0,
            l.1,
            ground (arith, has-erase_le x p xs l.2),
            prev_kept x (not_next x xs l on) ∙ l.3,
            subst
                (λ n. Linked (next_without next prev p) (prev_without next prev p) x n (erase p xs))
                (sym (next_at x xs l on)) (Linked-erase x (next x) xs l.4 on l.2),
          )
  ]

  -- The last buffer without `p`.
  last-erase :
      (before q d : Ptr) (xs : List Ptr)
      → Linked next prev before q xs
      → has p xs ≡ true
      → (if last_or d xs == p then prev p else last_or d xs) ≡ last_or before (erase p xs)
  unfolding has erase
  last-erase before q d [] l m = absurd (ground (arith, m))
  last-erase before q d (x ∷ []) l m =
      let e : (x == p) ≡ true = ground arith in
      let is : x ≡ p = (==_iff _ _).0 e in rw e (ap prev (sym is) ∙ l.3)
  last-erase before q d (x ∷ y ∷ ys) l m = elim (Bool-cases (x == p)) [
    | inl e ↦
        let is : x ≡ p = (==_iff _ _).0 e in
        let other : (last_or y ys == p) ≡ false = ground (arith, ne-last_or x y ys l.2, is) in
        rw (e, other) refl
    | inr e ↦ rw e (last-erase x (next x) x (y ∷ ys) l.4 (ground arith))
  ]

-- NULL is not on the list.
null_off :
    (next prev : Ptr → Ptr) (before q : Ptr) (xs : List Ptr)
    → Linked next prev before q xs
    → has null xs ≡ false
null_off next prev before q xs l = elim (Bool-cases (has null xs)) [
  | inl m ↦ absurd (ground (arith, Linked-ne_null next prev before q xs l null m))
  | inr e ↦ e
]

-- A buffer of the list leaves it, and the others stay in order.
pub rm_lru-IsLru :
    {l : Lru} (p : Ptr) (xs : List Ptr)
    → IsLru l xs
    → has p xs ≡ true
    → IsLru (rm_lru l p) (erase p xs)
unfolding rm_lru has
rm_lru-IsLru p [] v m = absurd (ground (arith, m))
rm_lru-IsLru {l} p (x ∷ xs) v m = record {
  linked =
      Linked-erase l.next l.prev p null l.rear (x ∷ xs) v.linked m
        (null_off l.next l.prev null l.rear (x ∷ xs) v.linked);
  front = λ _.
      rw (v.front (λ e. nil≢cons (sym e)))
        (last-erase l.next l.prev p null l.rear null (x ∷ xs) v.linked m);
}
