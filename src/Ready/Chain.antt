-- ===== src/Ready/Chain.antt =====
-- What a queue of kernel/proc.c stands for: the list of its processes, from the head on.
use winix.Prelude.{
  ◌≡◌, ◌≢◌, refl, Bool, true, false, ◌||◌, List, [], ◌∷◌, ◌++◌, arith, ◌==◌, Bool-cases, ==_iff,
  inl, inr,
}
use winix.Ready.{Ptr, null, update, Links}

unfoldable pub has : Ptr → List Ptr → Bool
has p [] = false
has p (x ∷ xs) = (p == x) || has p xs

-- From `p` the links lead through the distinct processes `xs` to NULL.
abbrev pub Chain : (Ptr → Ptr) → Ptr → List Ptr → Type 0
Chain next p [] = p ≡ null
Chain next p (x ∷ xs) = (p ≡ x) × (x ≢ null) × (has x xs ≡ false) × Chain next (next x) xs

-- The last of a list, `d` if it is empty.
abbrev pub last_or : Ptr → List Ptr → Ptr
last_or d [] = d
last_or d (x ∷ xs) = last_or x xs

-- The queue holds `xs` in order: the head leads through them, the tail is the last of them.
pub record IsQueue (s : Links) (xs : List Ptr) : Type 0 where
  pub chain : Chain s.next s.q.head xs
  pub tail : xs ≢ [] → s.q.tail ≡ last_or null xs

-- A chain survives a change of the links that spares its processes.
pub Chain-same :
    {next next' : Ptr → Ptr} (p : Ptr) (xs : List Ptr)
    → Chain next p xs
    → ((a : Ptr) → has a xs ≡ true → next' a ≡ next a)
    → Chain next' p xs
unfolding has
Chain-same p [] c same = c
Chain-same {next} {next'} p (x ∷ xs) c same =
    let here : next' x ≡ next x = same x (ground arith) in
    (c.0, c.1, c.2, rw here (Chain-same (next x) xs c.3 (λ a m. same a (ground arith))))

pub has-append : (a : Ptr) (xs ys : List Ptr) → has a (xs ++ ys) ≡ (has a xs || has a ys)
unfolding has
has-append a [] ys = refl
has-append a (x ∷ xs) ys = ground (arith, has-append a xs ys)

pub has-last_or : (x : Ptr) (xs : List Ptr) → has (last_or x xs) (x ∷ xs) ≡ true
unfolding has
has-last_or x [] = ground arith
has-last_or x (y ∷ xs) = ground (arith, has-last_or y xs)

-- A process that is not on a list is not its last.
pub ne-last_or : (a x : Ptr) (xs : List Ptr) → has a (x ∷ xs) ≡ false → (a == last_or x xs) ≡ false
ne-last_or a x xs out = elim (Bool-cases (a == last_or x xs)) [
  | inl e ↦ let same : a ≡ last_or x xs = (==_iff _ _).0 e in cc (has-last_or x xs)
  | inr e ↦ e
]

pub last_or-append : (d new : Ptr) (xs : List Ptr) → last_or d (xs ++ new ∷ []) ≡ new
last_or-append d new [] = refl
last_or-append d new (x ∷ xs) = last_or-append x new xs

-- Linking a new process behind the last one extends the chain by it.
pub Chain-append :
    (next : Ptr → Ptr) (p x : Ptr) (xs : List Ptr) (new : Ptr)
    → Chain next p (x ∷ xs)
    → new ≢ null
    → has new (x ∷ xs) ≡ false
    → Chain (update (update next (last_or x xs) new) new null) p (x ∷ xs ++ new ∷ [])
unfolding has
Chain-append next p x [] new c ne out =
    (c.0, c.1, ground arith, (ground arith, ne, refl, ground arith))
Chain-append next p x (y ∷ xs) new c ne out =
    let rest = Chain-append next (next x) y xs new c.3 ne (ground arith) in
    let old : (x == last_or y xs) ≡ false = ne-last_or x y xs c.2 in
    let other : (x == new) ≡ false = ground arith in
    (c.0, c.1, ground (arith, has-append x xs (new ∷ []), c.2), rw (other, old) rest)

-- A process on a list is not one that is off it.
pub ne_of_has : (a p : Ptr) (xs : List Ptr) → has a xs ≡ true → has p xs ≡ false → (a == p) ≡ false
ne_of_has a p xs on off = elim (Bool-cases (a == p)) [
  | inl e ↦ let same : a ≡ p = (==_iff _ _).0 e in cc
  | inr e ↦ e
]
