-- ===== src/Print/Value.antt =====
-- The number that digits in memory stand for.
use winix.Prelude.{
  ℕ, zero, suc, ◌+◌, ◌-◌, ◌*◌, ◌/◌, ◌%◌, ◌≤◌, ◌<◌, ◌≡◌, refl, ap, ◌∙◌, sym, true, false, ltb, leb,
  ◌==◌, if◌then◌else◌, arith, Bool, Bool-cases, ◌&&◌, ◌||◌, ◌⊎◌, inl, inr,
}
use native.Mathlib.Nat.{div-div-eq-div-mul}
use winix.Ready.{update}
use winix.Strings.{Memory}
use winix.Print.{Out, put, out}

-- The digit that a character stands for: '0' to '9', then 'A' on.
abbrev pub digit : ℕ → ℕ
digit c = if ltb c 65 then c - 48 else c - 65 + 10

-- The number that the `count` digits from `start` on stand for.
unfoldable pub value : (base start count : ℕ) → Memory → ℕ
value base start zero mem = 0
value base start (suc count) mem = value base start count mem * base + digit (mem (start + count))

-- A word behind the digits does not change the number.
pub value-update :
    (base start count a c : ℕ) (mem : Memory)
    → start + count ≤ a
    → value base start count (update mem a c) ≡ value base start count mem
unfolding value
value-update base start zero a c mem le = refl
value-update base start (suc count) a c mem le =
    let other : (start + count == a) ≡ false = ground arith in
    rw (other, value-update base start count a c mem (omega arith)) refl

-- The characters of the digits in a base up to 16.
abbrev pub is_digit_of : (base c : ℕ) → Bool
is_digit_of base c = (leb 48 c && ltb c 58) || (leb 65 c && ltb c (55 + base))

-- What has been put from `start` on: `offset` digits that stand for the number.
pub record IsWritten (base start : ℕ) (mem : Memory) (o : Out) (n : ℕ) : Type 0 where
  pub ends : o.buf ≡ start + o.offset
  pub reads : value base start o.offset o.mem ≡ n
  pub digits : (i : ℕ) → i < o.offset → is_digit_of base (o.mem (start + i)) ≡ true
  pub kept : (a : ℕ) → (a < start) ⊎ (o.buf ≤ a) → o.mem a ≡ mem a

-- Nothing is written yet.
pub IsWritten-empty : (base start : ℕ) (mem : Memory) → IsWritten base start mem (out mem start 0) 0
unfolding value
IsWritten-empty base start mem = record {
  ends = omega arith;
  reads = refl;
  digits = λ i lt. absurd (omega arith);
  kept = λ a _. refl;
}

-- One more digit.
pub put-IsWritten :
    {base start n : ℕ} {mem : Memory} {o : Out} (c d : ℕ)
    → digit c ≡ d
    → is_digit_of base c ≡ true
    → IsWritten base start mem o n
    → IsWritten base start mem (put o c) (n * base + d)
unfolding value
put-IsWritten {base} {start} {n} {mem} {o} c d is good v =
    let more : start + o.offset + 1 ≡ start + (o.offset + 1) = omega arith in
    let one : o.offset + 1 ≡ suc (o.offset) = omega arith in
    let here : (start + o.offset == o.buf) ≡ true = ground (arith, v.ends) in
    record {
      ends = ap (λ b. b + 1) v.ends ∙ more;
      reads =
          rw (one, here, is)
            (ap (λ m. m * base + d)
              (value-update base start o.offset o.buf c o.mem (omega (arith, v.ends)) ∙ v.reads));
      digits = λ i lt. elim (Bool-cases (i == o.offset)) [
        | inl e ↦ let at : (start + i == o.buf) ≡ true = ground (arith, v.ends) in rw at good
        | inr e ↦
            let before : (start + i == o.buf) ≡ false = ground (arith, v.ends) in
            rw before (v.digits i (ground arith))
      ];
      kept = λ a outside.
          let other : (a == o.buf) ≡ false = ground (arith, v.ends) in
          rw other (v.kept a (ground arith));
    }

-- What a function that prints the number `n` at `buf` has done: `len` digits that stand for `n`,
-- at most `most` of them, and a NUL, with no other word changed.
pub record IsPrinted (base most n buf : ℕ) (mem : Memory) (len : ℕ) (mem' : Memory) : Type 0 where
  pub reads : value base buf len mem' ≡ n
  pub digits : (i : ℕ) → i < len → is_digit_of base (mem' (buf + i)) ≡ true
  pub nul : mem' (buf + len) ≡ 0
  pub some_digit : 0 < len
  pub short : len ≤ most
  pub kept : (a : ℕ) → (a < buf) ⊎ (buf + len < a) → mem' a ≡ mem a

pub finish-IsPrinted :
    {base start n : ℕ} {mem : Memory} {o : Out} (most : ℕ)
    → IsWritten base start mem o n
    → 0 < o.offset
    → o.offset ≤ most
    → IsPrinted base most n start mem o.offset (update o.mem o.buf 0)
finish-IsPrinted {base} {start} {n} {mem} {o} most v positive short = record {
  reads = value-update base start o.offset o.buf 0 o.mem (omega (arith, v.ends)) ∙ v.reads;
  digits = λ i lt.
      let before : (start + i == o.buf) ≡ false = ground (arith, v.ends) in
      rw before (v.digits i lt);
  nul = let at : (start + o.offset == o.buf) ≡ true = ground (arith, v.ends) in rw at refl;
  some_digit = positive;
  short = short;
  kept = λ a outside.
      let other : (a == o.buf) ≡ false = ground (arith, v.ends) in
      rw other (v.kept a (ground (arith, v.ends)));
}

-- A digit of `n` behind the digits before it.
pub next_digit-10 : (n m : ℕ) → n / (m * 10) * 10 + n / m % 10 ≡ n / m
next_digit-10 n m = rw (sym (div-div-eq-div-mul n m 10)) (omega arith)

pub next_digit-16 : (n m : ℕ) → n / (m * 16) * 16 + n / m % 16 ≡ n / m
next_digit-16 n m = rw (sym (div-div-eq-div-mul n m 16)) (omega arith)
