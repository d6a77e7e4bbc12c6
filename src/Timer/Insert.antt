-- ===== src/Timer/Insert.antt =====
-- The walk of `insert_timer`, and the list with a new timer at its place.
use winix.Prelude.{
  ℕ, zero, suc, ◌≤◌, ◌<◌, ◌≡◌, ◌≢◌, refl, true, false, ◌||◌, List, [], ◌∷◌, arith, ltb, ◌==◌,
  if◌then◌else◌, length, Bool-cases, ==_iff, inl, inr, some,
}
use winix.Ready.{Ptr, null, update}
use winix.Ready.Chain.{has, Chain, Chain-same, ne_of_has}
use winix.Timer.{find_place}
use winix.Timer.Pending.{Sorted}

-- The sorted list with the timer `p` in it: behind every timer that is due strictly earlier.
unfoldable pub insert : (Ptr → ℕ) → Ptr → List Ptr → List Ptr
insert time p [] = p ∷ []
insert time p (x ∷ xs) = if ltb (time x) (time p) then x ∷ insert time p xs else p ∷ x ∷ xs

-- The timers before and behind the place of one that is due at `n`, NULL behind the last.
unfoldable pub prev_place : (Ptr → ℕ) → ℕ → Ptr → List Ptr → Ptr
prev_place time n prev [] = prev
prev_place time n prev (x ∷ xs) = if ltb (time x) n then prev_place time n x xs else prev

unfoldable pub next_place : (Ptr → ℕ) → ℕ → List Ptr → Ptr
next_place time n [] = null
next_place time n (x ∷ xs) = if ltb (time x) n then next_place time n xs else x

pub find_place-place :
    (time : Ptr → ℕ) (next : Ptr → Ptr) (n fuel prev curr : Ptr) (xs : List Ptr)
    → Chain next curr xs
    → length xs < fuel
    → find_place time next n fuel prev curr ≡ some (prev_place time n prev xs, next_place time n xs)
unfolding find_place prev_place next_place
find_place-place time next n zero prev curr xs c enough = absurd (omega arith)
find_place-place time next n (suc fuel) prev curr [] c enough = ground (arith, c)
find_place-place time next n (suc fuel) prev curr (x ∷ xs) c enough =
    let rest = find_place-place time next n fuel x (next x) xs c.3 (omega arith) in
    let more : (curr == null) ≡ false = ground (arith, c) in
    elim (Bool-cases (ltb (time x) n)) [
      | inl e ↦ rw (more, c.0, e) rest
      | inr e ↦ rw (more, c.0, e) refl
    ]

pub has-insert :
    (time : Ptr → ℕ) (a p : Ptr) (xs : List Ptr) → has a (insert time p xs) ≡ ((a == p) || has a xs)
unfolding has insert
has-insert time a p [] = ground arith
has-insert time a p (x ∷ xs) = ground (arith, has-insert time a p xs)

pub insert-Sorted :
    (time : Ptr → ℕ) (p : Ptr) (xs : List Ptr) → Sorted time xs → Sorted time (insert time p xs)
unfolding has insert
insert-Sorted time p [] o = ((λ a m. cc), o)
insert-Sorted time p (x ∷ xs) o = elim (Bool-cases (ltb (time x) (time p))) [
  | inl e ↦ rw e (
    λ a m. elim (Bool-cases (a == p)) [
      | inl is ↦ let same : a ≡ p = (==_iff _ _).0 is in rw same (ground arith)
      | inr other ↦ o.0 a (ground (arith, has-insert time a p xs))
    ],
    insert-Sorted time p xs o.1,
  )
  | inr e ↦ rw e (
    λ a m. elim (Bool-cases (a == x)) [
      | inl is ↦ let same : a ≡ x = (==_iff _ _).0 is in rw same (ground arith)
      | inr other ↦ let le : time x ≤ time a = o.0 a (ground arith) in ground arith
    ],
    o,
  )
]

pub prev_place-has :
    (time : Ptr → ℕ) (n x : Ptr) (xs : List Ptr) → has (prev_place time n x xs) (x ∷ xs) ≡ true
unfolding has prev_place
prev_place-has time n x [] = ground arith
prev_place-has time n x (y ∷ xs) = ground (arith, prev_place-has time n y xs)

-- The links with `p` between `b` and `a`.
abbrev pub linked : (Ptr → Ptr) → Ptr → Ptr → Ptr → Ptr → Ptr
linked next b p a = update (update next b p) p a

-- Linked in behind the last timer that is due earlier, the timer joins the chain at its place.
pub splice_in :
    (time : Ptr → ℕ) (next : Ptr → Ptr) (p b a head x : Ptr) (xs : List Ptr)
    → b ≡ prev_place time (time p) x xs
    → a ≡ next_place time (time p) xs
    → Chain next head (x ∷ xs)
    → p ≢ null
    → has p (x ∷ xs) ≡ false
    → Chain (linked next b p a) head (x ∷ insert time p xs)
unfolding has insert prev_place next_place
splice_in time next p b a head x [] is_b is_a c ne out =
    (c.0, c.1, ground arith, (ground arith, ne, refl, ground arith))
splice_in time next p b a head x (y ∷ xs) is_b is_a c ne out =
    let other : (x == p) ≡ false = ground arith in
    elim (Bool-cases (ltb (time y) (time p))) [
      | inl e ↦
          let there : b ≡ prev_place time (time p) y xs = rw e at is_b in
          let rest =
            splice_in time next p b a (next x) y xs there (rw e at is_a) c.3 ne (ground arith) in
          let apart : (x == b) ≡ false = rw there (
            ground (
              arith,
              ne_of_has (prev_place time (time p) y xs) x (y ∷ xs)
                  (prev_place-has time (time p) y xs) c.2,
            )) in
          rw e (c.0, c.1, ground (arith, has-insert time x p xs, c.2), rw (other, apart) rest)
      | inr e ↦
          let here : b ≡ x = rw e at is_b in
          let behind : a ≡ y = rw e at is_a in
          let at_p : linked next b p a p ≡ y = ground arith in
          let at_x : linked next b p a x ≡ p = ground arith in
          let from_y : Chain next y (y ∷ xs) = (refl, c.3.1, c.3.2, c.3.3) in
          let kept : Chain (linked next b p a) y (y ∷ xs) = Chain-same y (y ∷ xs) from_y (λ q m.
            rw (here, ne_of_has q p (y ∷ xs) m (ground arith), ne_of_has q x (y ∷ xs) m c.2)
              refl) in
          rw e (c.0, c.1, ground (arith, c.2), (at_x, ne, ground arith, rw at_p kept))
    ]
