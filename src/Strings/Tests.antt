-- ===== src/Strings/Tests.antt =====
-- The string functions on a concrete memory.
use winix.Prelude.{ℕ, zero, suc, ◌+◌, ◌<◌, ◌≡◌, refl, false, some, ◌==◌, if◌then◌else◌, arith, inr}
use winix.Ready.{update}
use winix.Strings.{Memory, memmove, strlen, end_of, strcpy, index, compare, strstr, strspn, strcspn}
use winix.Strings.Copy.{moved, memmove-moved}
use winix.Strings.Length.{IsString, strcpy-moved}
use winix.Strings.Compare.{Agree}

-- "ab" at 10, "ac" at 20, the rest zero.
abbrev page : Memory
page = update (update (update (update (λ _. 0) 10 97) 11 98) 20 97) 21 99

ab : IsString page 10 2
ab = record { words = letters; nul = refl }
  where
    letters : (i : ℕ) → i < 2 → (page (10 + i) == 0) ≡ false
    letters zero lt = refl
    letters (suc zero) lt = refl
    letters (suc (suc i)) lt = absurd (omega arith)

first_letter : Agree page 10 20 1
first_letter zero lt = (refl, refl)
first_letter (suc i) lt = absurd (omega arith)

ab_is_found :
    (strlen 5 10 page ≡ some 2)
    × (index 5 10 98 page ≡ some (some 11))
    × (strstr 5 10 11 page ≡ some (some 11))
    × (strspn 5 10 20 page ≡ some 1)
    × (strcspn 5 10 21 page ≡ some 2)
unfolding strlen end_of index strstr compare strspn strcspn
ab_is_found = (refl, refl, refl, refl, refl)

memmove_example : memmove 11 10 3 page 12 ≡ moved 11 10 3 page 12
memmove_example = memmove-moved 11 10 3 page 12 (omega arith)

strcpy_example :
    (mem' : Memory) × (strcpy 5 30 10 page ≡ some mem')
    × ((a : ℕ) → mem' a ≡ (if a == 33 then 0 else moved 30 10 3 page a))
strcpy_example = strcpy-moved 5 30 10 2 page ab (inr (omega arith)) (omega arith)
