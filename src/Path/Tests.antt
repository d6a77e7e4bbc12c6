-- ===== src/Path/Tests.antt =====
-- Tests of get_name on the path "//ab/c", and the example of its theorem.
use winix.Prelude.{
  ℕ, zero, suc, ◌+◌, ◌<◌, ◌≡◌, refl, true, Option, none, some, [], ◌∷◌, ◌==◌, arith, get_or, inl,
}
use winix.Ready.{Ptr}
use winix.Strings.{Memory}
use winix.Path.{slash, in_name, get_name, skip_leading, after_slashes, copy_name, skip_trailing}
use winix.Path.Name.{IsSlashes, IsName, IsNamed, get_name-IsNamed}

abbrev path : Memory
path a = get_or (47 ∷ 47 ∷ 97 ∷ 98 ∷ 47 ∷ 99 ∷ 0 ∷ []) a 7

abbrev answer : Option (Ptr × Memory) → ℕ × ℕ × ℕ
answer none = (0, 0, 0)
answer (some (rest, mem)) = (rest, mem 201, mem 202)

name_is_split : answer (get_name 3 0 200 path) ≡ (5, 98, 0)
unfolding get_name skip_leading after_slashes copy_name skip_trailing
name_is_split = refl

leading : IsSlashes path 0 2
leading = record { slashes = two; ends = refl }
  where
    two : (i : ℕ) → i < 2 → (path (0 + i) == slash) ≡ true
    two zero lt = refl
    two (suc zero) lt = refl
    two (suc (suc i)) lt = absurd (omega arith)

name : IsName path (0 + 2) 2
name = record { chars = two; ends = refl }
  where
    two : (i : ℕ) → i < 2 → in_name (path (0 + 2 + i)) ≡ true
    two zero lt = refl
    two (suc zero) lt = refl
    two (suc (suc i)) lt = absurd (omega arith)

trailing : IsSlashes path (0 + 2 + 2) 1
trailing = record { slashes = one; ends = refl }
  where
    one : (i : ℕ) → i < 1 → (path (0 + 2 + 2 + i) == slash) ≡ true
    one zero lt = refl
    one (suc i) lt = absurd (omega arith)

get_name_example :
    (mem' : Memory) × (get_name 3 0 200 path ≡ some (0 + 2 + 2 + 1, mem'))
    × IsNamed path (0 + 2) 2 200 mem'
get_name_example =
    get_name-IsNamed 3 0 200 2 2 1 path leading name trailing (omega arith) (omega arith)
      (inl (omega arith))
