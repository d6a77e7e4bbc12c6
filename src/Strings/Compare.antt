-- ===== src/Strings/Compare.antt =====
-- `strcmp` and `strncmp`: where the comparison stops.
use winix.Prelude.{
  ℕ, zero, suc, ◌+◌, ◌<◌, ◌≡◌, refl, ◌∙◌, true, false, not, ◌&&◌, Option, some, ◌==◌, arith,
  Bool-cases, inl, inr, ◌⊎◌,
}
use winix.Strings.{Memory, strcmp, strncmp}
use winix.Strings.Length.{IsString, IsString-rest, IsString-empty}

-- The two strings agree, without a NUL, on their first `k` words.
abbrev pub Agree : Memory → (s1 s2 k : ℕ) → Type 0
Agree mem s1 s2 k =
    (i : ℕ) → i < k → ((mem (s1 + i) == mem (s2 + i)) ≡ true) × ((mem (s1 + i) == 0) ≡ false)

-- One more word in front.
Agree-cons :
    (mem : Memory) (s1 s2 k : ℕ)
    → (mem s1 == mem s2) ≡ true
    → (mem s1 == 0) ≡ false
    → Agree mem (s1 + 1) (s2 + 1) k
    → Agree mem s1 s2 (suc k)
Agree-cons mem s1 s2 k same some_word rest zero lt =
    let at1 : s1 + 0 ≡ s1 = omega arith in
    let at2 : s2 + 0 ≡ s2 = omega arith in rw (at1, at2) (same, some_word)
Agree-cons mem s1 s2 k same some_word rest (suc i) lt =
    let at1 : s1 + suc i ≡ s1 + 1 + i = omega arith in
    let at2 : s2 + suc i ≡ s2 + 1 + i = omega arith in rw (at1, at2) (rest i (omega arith))

-- The comparison stops behind `k` words: at different words, or where both strings end.
abbrev pub Stops : Memory → (s1 s2 k : ℕ) → Type 0
Stops mem s1 s2 k =
    ((mem (s1 + k) == mem (s2 + k)) ≡ false) ⊎ ((mem (s1 + k) ≡ 0) × (mem (s2 + k) ≡ 0))

Stops-here :
    (mem : Memory) (s1 s2 : ℕ)
    → not (mem s1 == 0) && not (mem s2 == 0) && (mem s1 == mem s2) ≡ false
    → Stops mem s1 s2 0
Stops-here mem s1 s2 e =
    let at1 : s1 + 0 ≡ s1 = omega arith in
    let at2 : s2 + 0 ≡ s2 = omega arith in
    rw (at1, at2)
      (elim (Bool-cases (mem s1 == mem s2)) [
        | inl same ↦ inr (ground arith, ground arith)
        | inr other ↦ inl other
      ])

-- What `strcmp` returns: the words at the first place where the strings differ, or two NULs.
pub record Compared (mem : Memory) (s1 s2 : ℕ) (out : Option (ℕ × ℕ)) : Type 0 where
  pub place : ℕ
  pub agree : Agree mem s1 s2 place
  pub result : out ≡ some (mem (s1 + place), mem (s2 + place))
  pub stops : Stops mem s1 s2 place

-- The first words decide.
stop_now :
    (fuel s1 s2 : ℕ) (mem : Memory)
    → not (mem s1 == 0) && not (mem s2 == 0) && (mem s1 == mem s2) ≡ false
    → strcmp (suc fuel) s1 s2 mem ≡ some (mem s1, mem s2)
unfolding strcmp
stop_now fuel s1 s2 mem e = elim (Bool-cases (not (mem s1 == 0) && not (mem s2 == 0))) [
  | inl words ↦ let other : (mem s1 == mem s2) ≡ false = ground arith in rw (words, other) refl
  | inr ended ↦ rw ended refl
]

go_on :
    (fuel s1 s2 : ℕ) (mem : Memory)
    → not (mem s1 == 0) && not (mem s2 == 0) && (mem s1 == mem s2) ≡ true
    → strcmp (suc fuel) s1 s2 mem ≡ strcmp fuel (s1 + 1) (s2 + 1) mem
unfolding strcmp
go_on fuel s1 s2 mem e =
    let words : not (mem s1 == 0) && not (mem s2 == 0) ≡ true = ground arith in
    let same : (mem s1 == mem s2) ≡ true = ground arith in rw (words, same) refl

Compared-now :
    (fuel s1 s2 : ℕ) (mem : Memory)
    → not (mem s1 == 0) && not (mem s2 == 0) && (mem s1 == mem s2) ≡ false
    → Compared mem s1 s2 (strcmp (suc fuel) s1 s2 mem)
Compared-now fuel s1 s2 mem e = record {
  place = 0;
  agree = λ i lt. absurd (omega arith);
  result =
      let at1 : s1 + 0 ≡ s1 = omega arith in
      let at2 : s2 + 0 ≡ s2 = omega arith in rw (at1, at2) (stop_now fuel s1 s2 mem e);
  stops = Stops-here mem s1 s2 e;
}

Compared-later :
    (fuel s1 s2 : ℕ) (mem : Memory)
    → not (mem s1 == 0) && not (mem s2 == 0) && (mem s1 == mem s2) ≡ true
    → Compared mem (s1 + 1) (s2 + 1) (strcmp fuel (s1 + 1) (s2 + 1) mem)
    → Compared mem s1 s2 (strcmp (suc fuel) s1 s2 mem)
Compared-later fuel s1 s2 mem e c =
    let at1 : s1 + suc c.place ≡ s1 + 1 + c.place = omega arith in
    let at2 : s2 + suc c.place ≡ s2 + 1 + c.place = omega arith in
    record {
      place = suc c.place;
      agree = Agree-cons mem s1 s2 c.place (ground arith) (ground arith) c.agree;
      result = rw (at1, at2) (go_on fuel s1 s2 mem e ∙ c.result);
      stops = rw (at1, at2) c.stops;
    }

-- With fuel beyond the length of the first string, `strcmp` returns the words at the first place
-- where the strings differ, or two NULs if they are the same.
pub strcmp-Compared :
    (fuel s1 s2 len : ℕ) (mem : Memory)
    → IsString mem s1 len
    → len < fuel
    → Compared mem s1 s2 (strcmp fuel s1 s2 mem)
strcmp-Compared zero s1 s2 len mem v enough = absurd (omega arith)
strcmp-Compared (suc fuel) s1 s2 zero mem v enough =
    Compared-now fuel s1 s2 mem (ground (arith, IsString-empty v))
strcmp-Compared (suc fuel) s1 s2 (suc len) mem v enough =
    let rest = strcmp-Compared fuel (s1 + 1) (s2 + 1) len mem (IsString-rest v) (omega arith) in
    elim (Bool-cases (not (mem s1 == 0) && not (mem s2 == 0) && (mem s1 == mem s2))) [
      | inl e ↦ Compared-later fuel s1 s2 mem e rest
      | inr e ↦ Compared-now fuel s1 s2 mem e
    ]

-- When the first `size` words agree and none is NUL, `strncmp` does not stop there: it returns the
-- difference of the words behind them.
pub strncmp-Agree :
    (s1 s2 size : ℕ) (mem : Memory)
    → Agree mem s1 s2 size
    → strncmp s1 s2 size mem ≡ (mem (s1 + size), mem (s2 + size))
unfolding strncmp
strncmp-Agree s1 s2 zero mem agree =
    let at1 : s1 + 0 ≡ s1 = omega arith in let at2 : s2 + 0 ≡ s2 = omega arith in rw (at1, at2) refl
strncmp-Agree s1 s2 (suc size) mem agree =
    let shifted : Agree mem (s1 + 1) (s2 + 1) size = λ i lt.
      (let at1 : s1 + 1 + i ≡ s1 + suc i = omega arith in
        let at2 : s2 + 1 + i ≡ s2 + suc i = omega arith in
        rw (at1, at2) (agree (suc i) (omega arith))) in
    let rest = strncmp-Agree (s1 + 1) (s2 + 1) size mem shifted in
    let at0 : s1 + 0 ≡ s1 = omega arith in
    let at0' : s2 + 0 ≡ s2 = omega arith in
    let first : ((mem s1 == mem s2) ≡ true) × ((mem s1 == 0) ≡ false) =
      rw (at0, at0') at (agree 0 (omega arith)) in
    let word2 : (mem s2 == 0) ≡ false = ground (arith, first.0, first.1) in
    let at1 : s1 + suc size ≡ s1 + 1 + size = omega arith in
    let at2 : s2 + suc size ≡ s2 + 1 + size = omega arith in
    rw (first.1, word2, first.0, at1, at2) rest
