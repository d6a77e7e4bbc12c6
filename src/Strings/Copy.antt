-- ===== src/Strings/Copy.antt =====
-- `memcpy`, `memmove` and `memset`, word by word.
use winix.Prelude.{
  ℕ, zero, suc, ◌+◌, ◌-◌, ◌≤◌, ◌<◌, ◌^◌, ◌≡◌, refl, ◌∙◌, Bool, true, false, ◌&&◌, ◌||◌, ltb, leb,
  ◌==◌, if◌then◌else◌, arith, Bool-cases, ==_iff, inl, inr, ◌⊎◌,
}
use winix.Ready.{update}
use winix.Strings.{Memory, below_int, copy_loop, copy_back, memcpy, memmove, memset}

-- Address `a` is one of the `n` from `p` on.
abbrev pub inside : (p n a : ℕ) → Bool
inside p n a = leb p a && ltb a (p + n)

-- The word at `a` after the `n` words from `src` on have been copied to `dest` at once.
abbrev pub moved : (dest src n : ℕ) → Memory → ℕ → ℕ
moved dest src n mem a = if inside dest n a then mem (src + (a - dest)) else mem a

-- Copying forwards is right if the target does not start inside the source.
pub copy_loop-moved :
    (n p1 p2 : ℕ) (mem : Memory) (a : ℕ)
    → (p1 ≤ p2) ⊎ (p2 + n ≤ p1)
    → copy_loop n p1 p2 mem a ≡ moved p1 p2 n mem a
unfolding copy_loop
copy_loop-moved zero p1 p2 mem a apart = ground arith
copy_loop-moved (suc n) p1 p2 mem a apart =
    let rest = copy_loop-moved n (p1 + 1) (p2 + 1) (update mem p1 (mem p2)) a (ground arith) in
    rest ∙ step (Bool-cases (inside (p1 + 1) n a)) (Bool-cases (a == p1))
  where
    step :
        (inside (p1 + 1) n a ≡ true) ⊎ (inside (p1 + 1) n a ≡ false)
        → ((a == p1) ≡ true) ⊎ ((a == p1) ≡ false)
        → moved (p1 + 1) (p2 + 1) n (update mem p1 (mem p2)) a ≡ moved p1 p2 (suc n) mem a
    step (inl e) (inl is) = absurd (ground arith)
    step (inl e) (inr other) =
        let within : inside p1 (suc n) a ≡ true = ground arith in
        let same : p2 + 1 + (a - (p1 + 1)) ≡ p2 + (a - p1) = ground arith in
        let kept : (p2 + (a - p1) == p1) ≡ false = ground arith in rw (e, within, same, kept) refl
    step (inr e) (inl is) =
        let here : a ≡ p1 = (==_iff _ _).0 is in
        let within : inside p1 (suc n) a ≡ true = ground arith in
        let same : p2 + (a - p1) ≡ p2 = ground arith in rw (e, is, within, same) refl
    step (inr e) (inr other) =
        let without : inside p1 (suc n) a ≡ false = ground arith in rw (e, other, without) refl

-- Copying backwards is right if the target does not start before the source.
copy_back-moved :
    (n dest src : ℕ) (mem : Memory) (a : ℕ)
    → src ≤ dest
    → copy_back n dest src mem a ≡ moved dest src n mem a
unfolding copy_back
copy_back-moved zero dest src mem a le = ground arith
copy_back-moved (suc n) dest src mem a le =
    let rest = copy_back-moved n dest src (update mem (dest + n) (mem (src + n))) a le in
    rest ∙ step (Bool-cases (inside dest n a)) (Bool-cases (a == dest + n))
  where
    step :
        (inside dest n a ≡ true) ⊎ (inside dest n a ≡ false)
        → ((a == dest + n) ≡ true) ⊎ ((a == dest + n) ≡ false)
        → moved dest src n (update mem (dest + n) (mem (src + n))) a ≡ moved dest src (suc n) mem a
    step (inl e) (inl is) = absurd (ground arith)
    step (inl e) (inr other) =
        let within : inside dest (suc n) a ≡ true = ground arith in
        let kept : (src + (a - dest) == dest + n) ≡ false = ground arith in
        rw (e, within, kept) refl
    step (inr e) (inl is) =
        let within : inside dest (suc n) a ≡ true = ground arith in
        let same : src + (a - dest) ≡ src + n = ground arith in rw (e, is, within, same) refl
    step (inr e) (inr other) =
        let without : inside dest (suc n) a ≡ false = ground arith in rw (e, other, without) refl

-- `memcpy` moves the words if the target does not start inside the source.
pub memcpy-moved :
    (dest src n : ℕ) (mem : Memory)
    → (dest ≤ src) ⊎ (src + n ≤ dest)
    → (a : ℕ) → memcpy dest src n mem a ≡ moved dest src n mem a
unfolding memcpy
memcpy-moved dest src n mem apart a = copy_loop-moved n dest src mem a apart

-- For `n` below 2 ^ 31, which is an `int`, `memmove` leaves in the `n` words of the target what the
-- source had before, also when the two overlap, and changes no other word.
pub memmove-moved :
    (dest src n : ℕ) (mem : Memory) (a : ℕ)
    → n < 2 ^ 31
    → memmove dest src n mem a ≡ moved dest src n mem a
unfolding memmove
memmove-moved dest src n mem a int = elim (Bool-cases ((src == dest) || (n == 0))) [
  | inl e ↦ rw e (nothing e)
  | inr e ↦ elim (Bool-cases (ltb src dest && below_int (dest - src) n)) [
    | inl e' ↦ rw (e, e') (copy_back-moved n dest src mem a (ground arith))
    | inr e' ↦ elim (Bool-cases (ltb dest src && below_int (src - dest) n)) [
      | inl e'' ↦ rw (e, e', e'') (copy_loop-moved n dest src mem a (inl (ground arith)))
      | inr e'' ↦ rw (e, e', e'') (memcpy-moved dest src n mem (apart e e') a)
    ]
  ]
]
  where
    nothing : ((src == dest) || (n == 0)) ≡ true → mem a ≡ moved dest src n mem a
    nothing e = elim (Bool-cases (inside dest n a)) [
      | inl within ↦ let same : src + (a - dest) ≡ a = ground arith in rw (within, same) refl
      | inr without ↦ rw without refl
    ]

    apart :
        ((src == dest) || (n == 0)) ≡ false
        → (ltb src dest && below_int (dest - src) n) ≡ false
        → (dest ≤ src) ⊎ (src + n ≤ dest)
    apart e e' = elim (Bool-cases (leb dest src)) [
      | inl le ↦ inl (ground arith)
      | inr gt ↦ inr (ground arith)
    ]

-- `memset` puts the word at each of the `n` addresses, and changes no other word.
pub memset-inside :
    (dst c n : ℕ) (mem : Memory) (a : ℕ)
    → memset dst c n mem a ≡ (if inside dst n a then c else mem a)
unfolding memset
memset-inside dst c zero mem a = ground arith
memset-inside dst c (suc n) mem a = ground (arith, memset-inside (dst + 1) c n (update mem dst c) a)
