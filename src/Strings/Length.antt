-- ===== src/Strings/Length.antt =====
-- `strlen` and `strcpy` on strings that end.
use winix.Prelude.{
  ℕ, zero, suc, ◌+◌, ◌-◌, ◌≤◌, ◌<◌, ◌≡◌, refl, ap, ◌∙◌, true, false, some, ◌==◌, if◌then◌else◌,
  arith, Bool-cases, inl, inr, ◌⊎◌,
}
use winix.Ready.{update}
use winix.Strings.{Memory, copy_loop, end_of, strlen, copy_string, strcpy}
use winix.Strings.Copy.{moved, copy_loop-moved}

-- A string of `len` words, none of them NUL, with a NUL behind it.
pub record IsString (mem : Memory) (s len : ℕ) : Type 0 where
  pub words : (i : ℕ) → i < len → (mem (s + i) == 0) ≡ false
  pub nul : mem (s + len) ≡ 0

-- The rest of a string is a string.
pub IsString-rest : {mem : Memory} {s len : ℕ} → IsString mem s (suc len) → IsString mem (s + 1) len
IsString-rest {mem} {s} {len} v = record {
  words = λ i lt.
      let same : s + 1 + i ≡ s + (i + 1) = omega arith in rw same (v.words (i + 1) (omega arith));
  nul = let same : s + 1 + len ≡ s + suc len = omega arith in rw same v.nul;
}

-- What a string is does not depend on the words outside it.
IsString-same :
    {mem mem' : Memory} {s len : ℕ}
    → IsString mem s len
    → ((i : ℕ) → i ≤ len → mem' (s + i) ≡ mem (s + i))
    → IsString mem' s len
IsString-same {len} v same = record {
  words = λ i lt. rw (same i (omega arith)) (v.words i lt);
  nul = same len (omega arith) ∙ v.nul;
}

pub IsString-first : {mem : Memory} {s len : ℕ} → IsString mem s (suc len) → (mem s == 0) ≡ false
IsString-first {mem} {s} v =
    let same : s + 0 ≡ s = omega arith in rw same at (v.words 0 (omega arith))

pub IsString-empty : {mem : Memory} {s : ℕ} → IsString mem s 0 → mem s ≡ 0
IsString-empty {mem} {s} v = let same : s + 0 ≡ s = omega arith in rw same at v.nul

pub end_of-IsString :
    (fuel s len : ℕ) (mem : Memory)
    → IsString mem s len
    → len < fuel
    → end_of fuel s mem ≡ some (s + len)
unfolding end_of
end_of-IsString zero s len mem v enough = absurd (omega arith)
end_of-IsString (suc fuel) s zero mem v enough = ground (arith, IsString-empty v)
end_of-IsString (suc fuel) s (suc len) mem v enough =
    ground (
      arith,
      IsString-first v,
      end_of-IsString fuel (s + 1) len mem (IsString-rest v) (omega arith),
    )

-- With fuel beyond its length, `strlen` of a string returns the length.
pub strlen-IsString :
    (fuel s len : ℕ) (mem : Memory) → IsString mem s len → len < fuel → strlen fuel s mem ≡ some len
unfolding strlen
strlen-IsString fuel s len mem v enough =
    let same : s + len - s ≡ len = omega arith in
    rw (end_of-IsString fuel s len mem v enough, strlen) (ap some same)

-- The copy of a string is the copy of its words and the NUL.
copy_string-copy_loop :
    (fuel dest src len : ℕ) (mem : Memory)
    → IsString mem src len
    → (dest ≤ src) ⊎ (src + len < dest)
    → len < fuel
    → copy_string fuel dest src mem ≡ some (dest + len + 1, copy_loop (suc len) dest src mem)
unfolding copy_string copy_loop
copy_string-copy_loop zero dest src len mem v apart enough = absurd (omega arith)
copy_string-copy_loop (suc fuel) dest src zero mem v apart enough =
    let ends : (mem src == 0) ≡ true = ground (arith, IsString-empty v) in
    let at : dest + 1 ≡ dest + 0 + 1 = omega arith in
    rw ends (ap (λ d. some (d, update mem dest (mem src))) at)
copy_string-copy_loop (suc fuel) dest src (suc len) mem v apart enough =
    let mem' = update mem dest (mem src) in
    let kept : IsString mem' (src + 1) len =
      IsString-same (IsString-rest v)
        (λ i le. (let other : (src + 1 + i == dest) ≡ false = ground arith in rw other refl)) in
    let rest =
      copy_string-copy_loop fuel (dest + 1) (src + 1) len mem' kept (ground arith) (omega arith) in
    let at : dest + 1 + len + 1 ≡ dest + suc len + 1 = omega arith in
    rw (IsString-first v)
      (rest ∙ ap (λ d. some (d, copy_loop (suc len) (dest + 1) (src + 1) mem')) at)

-- With fuel beyond the length, and a target that does not start inside the string, `strcpy` copies
-- the string with its NUL, puts a second NUL behind it, and changes no other word.
pub strcpy-moved :
    (fuel dest src len : ℕ) (mem : Memory)
    → IsString mem src len
    → (dest ≤ src) ⊎ (src + len < dest)
    → len < fuel
    → (mem' : Memory) × (strcpy fuel dest src mem ≡ some mem')
      × ((a : ℕ) → mem' a ≡ (if a == dest + len + 1 then 0 else moved dest src (suc len) mem a))
unfolding strcpy
strcpy-moved fuel dest src len mem v apart enough = (
  update (copy_loop (suc len) dest src mem) (dest + len + 1) 0,
  rw (copy_string-copy_loop fuel dest src len mem v apart enough, strcpy) refl,
  λ a. elim (Bool-cases (a == dest + len + 1)) [
    | inl e ↦ rw e refl
    | inr e ↦ rw e (copy_loop-moved (suc len) dest src mem a (ground arith))
  ],
)
