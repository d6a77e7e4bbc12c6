-- ===== src/Print/Atoi.antt =====
-- `atoi` of what `kputd_buf` writes, and the `int` that `kputd_buf` never finishes.
use mathlib.Core.Path.{subst}
use winix.Prelude.{
  ℕ, zero, suc, ◌+◌, ◌-◌, ◌*◌, ◌/◌, ◌%◌, ◌^◌, ◌≤◌, ◌<◌, ◌≡◌, ◌≢◌, refl, ◌∙◌, sym, ap, true, false,
  none, some, ltb, ◌==◌, if◌then◌else◌, arith,
}
use winix.Strings.{Memory}
use winix.Print.{is_digit, first_place, put_decimal, kputd_buf, atoi_loop, atoi}
use winix.Print.Value.{IsPrinted, value, digit}
use winix.Print.Decimal.{PrintedDecimal, plain, signed, kputd_buf-PrintedDecimal}

value-shorter : (start i r : ℕ) (mem : Memory) → value 10 start i mem ≤ value 10 start (i + r) mem
unfolding value
value-shorter start i zero mem = let e : i + 0 ≡ i = omega arith in rw e (omega arith)
value-shorter start i (suc r) mem =
    let e : i + suc r ≡ suc (i + r) = omega arith in
    rw e (omega (arith, value-shorter start i r mem))

atoi_step :
    (fuel p res : ℕ) (mem : Memory)
    → is_digit (mem p) ≡ true
    → res * 10 + digit (mem p) < 2 ^ 32
    → atoi_loop (suc fuel) p res mem ≡ atoi_loop fuel (p + 1) (res * 10 + digit (mem p)) mem
unfolding atoi_loop
atoi_step fuel p res mem is lt =
    let e : (mem p == 0) ≡ false = ground arith in
    let same : (res * 10 + mem p - 48) % 2 ^ 32 ≡ res * 10 + digit (mem p) = ground arith in
    rw (e, is, same) refl

atoi_end : (fuel p res : ℕ) (mem : Memory) → mem p ≡ 0 → atoi_loop (suc fuel) p res mem ≡ some res
unfolding atoi_loop
atoi_end fuel p res mem e = rw e refl

-- From the digit `i` on, with `r` digits left.
atoi_loop-value :
    {n start len : ℕ} {mem mem' : Memory} (r i fuel : ℕ)
    → n < 2 ^ 32
    → IsPrinted 10 10 n start mem len mem'
    → i + r ≡ len
    → r < fuel
    → atoi_loop fuel (start + i) (value 10 start i mem') mem' ≡ some n
unfolding value
atoi_loop-value r i zero int v all lt = absurd (omega arith)
atoi_loop-value {n} {start} {len = size} {mem' = page} zero i (suc fuel) int v all lt =
    let at : i ≡ size = omega (arith, all) in
    atoi_end fuel (start + i) (value 10 start i page) page (ap (λ j. page (start + j)) at ∙ v.nul)
    ∙ ap (λ j. some (value 10 start j page)) at
    ∙ ap some v.reads
atoi_loop-value {n} {start} {len = size} {mem' = page} (suc r) i (suc fuel) int v all lt =
    let next : start + i + 1 ≡ start + suc i = omega arith in
    let good : is_digit (page (start + i)) ≡ true =
      ground (arith, v.digits i (omega (arith, all))) in
    let fits : value 10 start (suc i) page < 2 ^ 32 =
      let whole : suc i + r ≡ size = omega (arith, all) in
      ground (
        arith,
        subst (λ j. value 10 start (suc i) page ≤ value 10 start j page) whole
            (value-shorter start (suc i) r page),
        v.reads,
      ) in
    atoi_step fuel (start + i) (value 10 start i page) page good fits
    ∙ ap (λ p. atoi_loop fuel p (value 10 start (suc i) page) page) next
    ∙ atoi_loop-value r (suc i) fuel int v (omega (arith, all)) (omega arith)

atoi-IsPrinted :
    {n start len : ℕ} {mem mem' : Memory} (fuel : ℕ)
    → n < 2 ^ 32
    → 11 ≤ fuel
    → IsPrinted 10 10 n start mem len mem'
    → atoi fuel start mem' ≡ some n
unfolding atoi value
atoi-IsPrinted {start} {len = size} {mem' = page} fuel int le v =
    let same : start + 0 ≡ start = omega arith in
    ap (λ p. atoi_loop fuel p 0 page) (sym same)
    ∙ atoi_loop-value size 0 fuel int v (omega arith) (omega (arith, v.short))

-- A minus sign is no digit.
atoi_signed : (fuel start : ℕ) (mem : Memory) → mem start ≡ 45 → atoi (suc fuel) start mem ≡ some 0
unfolding atoi atoi_loop
atoi_signed fuel start mem e = rw e refl

-- For a word other than 2 ^ 31, kputd_buf returns within the fuel of eleven rounds, and atoi of what
-- it has written returns the number itself if it is not negative as an `int`, and 0 if it is.
pub atoi-kputd_buf :
    (fuel n buf : ℕ) (mem : Memory)
    → n < 2 ^ 32
    → n ≢ 2 ^ 31
    → 11 ≤ fuel
    → (len : ℕ) × (mem' : Memory) × (kputd_buf fuel n buf mem ≡ some (len, mem'))
      × (atoi fuel buf mem' ≡ some (if ltb n (2 ^ 31) then n else 0))
atoi-kputd_buf zero n buf mem lt least le = absurd (omega arith)
atoi-kputd_buf (suc fuel) n buf mem lt least le =
    let (len, mem', is, printed) = kputd_buf-PrintedDecimal (suc fuel) n buf mem lt least le in
    (len, mem', is, reads_back printed)
  where
    reads_back :
        {len : ℕ} {mem' : Memory}
        → PrintedDecimal n buf mem len mem'
        → atoi (suc fuel) buf mem' ≡ some (if ltb n (2 ^ 31) then n else 0)
    reads_back {mem' = page} (signed neg _ sign _ _) =
        let e : ltb n (2 ^ 31) ≡ false = ground arith in rw e (atoi_signed fuel buf page sign)
    reads_back (plain pos printed _) =
        let e : ltb n (2 ^ 31) ≡ true = ground arith in
        rw e (atoi-IsPrinted (suc fuel) lt le printed)

-- The least `int` has no absolute value: the loop that looks for the place of its first digit does
-- not end.
first_place-least : (fuel place : ℕ) → first_place fuel place (2 ^ 31) ≡ none
unfolding first_place
first_place-least zero place = refl
first_place-least (suc fuel) place = first_place-least fuel (place / 10)

-- kputd_buf of the least `int`, -2 ^ 31, does not return.
pub kputd_buf-least : (fuel buf : ℕ) (mem : Memory) → kputd_buf fuel (2 ^ 31) buf mem ≡ none
unfolding kputd_buf put_decimal
kputd_buf-least fuel buf mem = rw (first_place-least fuel 1000000000) refl
