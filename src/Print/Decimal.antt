-- ===== src/Print/Decimal.antt =====
-- `kputd_buf`, and `atoi` on what it writes.
use mathlib.Core.Path.{subst}
use native.Mathlib.Numerals.{unary_clauses}
use native.Mathlib.Nat.{div-eq_of_lt}
use winix.Prelude.{
  ℕ, zero, suc, ◌+◌, ◌-◌, ◌*◌, ◌/◌, ◌%◌, ◌^◌, ◌≤◌, ◌<◌, ◌≡◌, ◌≢◌, refl, ◌∙◌, sym, ap, true, false,
  Option, none, some, leb, ◌==◌, arith, Bool-cases, inl, inr,
}
use winix.Ready.{update}
use winix.Strings.{Memory}
use winix.Print.{
  Out, out, put, from_place, greater, first_place, decimal_loop, finish, finished, put_decimal,
  kputd_buf,
}
use winix.Print.Value.{
  IsWritten, IsWritten-empty, put-IsWritten, IsPrinted, finish-IsPrinted, next_digit-10,
}

ten_times : (k : ℕ) → 10 ^ suc k ≡ 10 ^ k * 10
ten_times k = simp unary_clauses refl

place_positive : (k : ℕ) → 0 < 10 ^ k
place_positive zero = omega arith
place_positive (suc k) = omega (arith, ten_times k, place_positive k)

put_digit :
    {start : ℕ} {mem : Memory} (n : ℕ) (o : Out) (place : ℕ)
    → IsWritten 10 start mem o (n / (place * 10))
    → IsWritten 10 start mem (put o (n / place % 10 + 48)) (n / place)
put_digit {start} {mem} n o place v =
    subst (IsWritten 10 start mem (put o (n / place % 10 + 48))) (next_digit-10 n place)
      (put-IsWritten (n / place % 10 + 48) (n / place % 10) (ground arith) (ground arith) v)

decimal_step :
    (fuel place n : ℕ) (o : Out)
    → 0 < place
    → decimal_loop (suc fuel) place n o
      ≡ decimal_loop fuel (place / 10) n (put o (n / place % 10 + 48))
unfolding decimal_loop
decimal_step fuel place n o positive =
    let e : (place == 0) ≡ false = ground arith in rw (e, decimal_loop) refl

decimal_end : (fuel n : ℕ) (o : Out) → decimal_loop (suc fuel) 0 n o ≡ some o
unfolding decimal_loop
decimal_end fuel n o = refl

-- The rounds of the second loop from the place 10 ^ k down to 1.
decimal_loop-IsWritten :
    {n start : ℕ} {mem : Memory} (k fuel : ℕ) (o : Out)
    → k + 2 ≤ fuel
    → IsWritten 10 start mem o (n / (10 ^ k * 10))
    → (o' : Out) × (decimal_loop fuel (10 ^ k) n o ≡ some o')
      × IsWritten 10 start mem o' n
      × (o'.offset ≡ o.offset + suc k)
decimal_loop-IsWritten zero zero o le v = absurd (omega arith)
decimal_loop-IsWritten zero (suc zero) o le v = absurd (omega arith)
decimal_loop-IsWritten {n} {start} {mem} zero (suc (suc fuel)) o le v = (
  put o (n / 1 % 10 + 48),
  decimal_step (suc fuel) 1 n o (omega arith) ∙ decimal_end fuel n (put o (n / 1 % 10 + 48)),
  subst (IsWritten 10 start mem (put o (n / 1 % 10 + 48))) (omega arith) (put_digit n o 1 v),
  omega arith,
)
decimal_loop-IsWritten (suc k) zero o le v = absurd (omega arith)
decimal_loop-IsWritten {n} {start} {mem} (suc k) (suc fuel) o le v =
    let place = 10 ^ suc k in
    let next : 10 ^ suc k / 10 ≡ 10 ^ k = omega (arith, ten_times k) in
    let one = put o (n / 10 ^ suc k % 10 + 48) in
    let w : IsWritten 10 start mem one (n / (10 ^ k * 10)) =
      subst (λ p. IsWritten 10 start mem one (n / p)) (ten_times k) (put_digit n o place v) in
    let (o', e, v', len) = decimal_loop-IsWritten {n = n} k fuel one (omega arith) w in
    (
      o',
      decimal_step fuel place n o (place_positive (suc k))
          ∙ ap (λ p. decimal_loop fuel p n one) next
          ∙ e,
      v',
      omega (arith, len),
    )

-- The first loop finds the place of the first digit.
first_place-Found :
    {n : ℕ} (k fuel : ℕ)
    → 0 < n
    → n < 2 ^ 31
    → n < 10 ^ k * 10
    → k + 1 ≤ fuel
    → (j : ℕ) × (first_place fuel (10 ^ k) n ≡ some (10 ^ j))
      × (j ≤ k)
      × (n / (10 ^ j * 10) ≡ 0)
      × (10 ^ j ≤ n)
unfolding first_place
first_place-Found k zero positive int lt le = absurd (omega arith)
first_place-Found {n} zero (suc fuel) positive int lt le =
    let e : greater 1 n ≡ false = ground arith in
    (0, rw e refl, omega arith, omega arith, omega arith)
first_place-Found {n} (suc k) (suc fuel) positive int lt le =
    elim (Bool-cases (greater (10 ^ suc k) n)) [
      | inl e ↦
          let next : 10 ^ suc k / 10 ≡ 10 ^ k = omega (arith, ten_times k) in
          let below : n < 10 ^ k * 10 = ground (arith, ten_times k) in
          let (j, found, small, above, least) =
            first_place-Found {n = n} k fuel positive int below (omega arith) in
          (j, rw (e, next) found, omega arith, above, least)
      | inr e ↦ (suc k, rw e refl, omega arith, div-eq_of_lt lt, ground arith)
    ]

put_decimal-finish :
    (fuel n place : ℕ) (o o' : Out)
    → first_place fuel 1000000000 n ≡ some place
    → decimal_loop fuel place n o ≡ some o'
    → put_decimal fuel n o ≡ some (finish o')
unfolding put_decimal
put_decimal-finish fuel n place o o' found looped = rw (found, looped) refl

-- A number of several digits does not start with a 0: it is at least the place of its first digit.
abbrev pub NoLeadingZero : (n len : ℕ) → Type 0
NoLeadingZero n len = 1 < len → 10 ^ (len - 1) ≤ n

-- The digits of a positive `int`.
put_decimal-IsPrinted :
    (fuel n start : ℕ) (mem : Memory)
    → 0 < n
    → n < 2 ^ 31
    → 11 ≤ fuel
    → (len : ℕ) × (mem' : Memory) × (put_decimal fuel n (out mem start 0) ≡ some (len, mem'))
      × IsPrinted 10 10 n start mem len mem'
      × NoLeadingZero n len
put_decimal-IsPrinted fuel n start mem positive int le =
    let (j, found, small, above, least) =
      first_place-Found {n = n} 9 fuel positive int (omega arith) (omega arith) in
    let nothing : IsWritten 10 start mem (out mem start 0) (n / (10 ^ j * 10)) =
      subst (IsWritten 10 start mem (out mem start 0)) (sym above) (IsWritten-empty 10 start mem) in
    let (o, looped, w, len) =
      decimal_loop-IsWritten {n = n} j fuel (out mem start 0) (omega arith) nothing in
    (
      o.offset,
      update o.mem o.buf 0,
      put_decimal-finish fuel n (10 ^ j) (out mem start 0) o found looped,
      finish-IsPrinted 10 w (omega (arith, len)) (omega (arith, len)),
      λ _. let place : o.offset - 1 ≡ j = omega (arith, len) in rw place least,
    )

-- What the numbers that `kputd_buf` prints look like: the digits of a number that is not negative,
-- and a sign before those of the absolute value of a negative one.
pub data PrintedDecimal (n buf : ℕ) (mem : Memory) : (len : ℕ) → Memory → Type 0 where
  plain :
      {len : ℕ} {mem' : Memory}
      → n < 2 ^ 31
      → IsPrinted 10 10 n buf mem len mem'
      → NoLeadingZero n len
      → PrintedDecimal n buf mem len mem'
  signed :
      {m len : ℕ} {mem' : Memory}
      → 2 ^ 31 < n
      → m + n ≡ 2 ^ 32
      → mem' buf ≡ 45
      → IsPrinted 10 10 m (buf + 1) (update mem buf 45) len mem'
      → NoLeadingZero m len
      → PrintedDecimal n buf mem (suc len) mem'

-- An offset that starts one higher ends one higher.
abbrev one_longer : Option (ℕ × Memory) → Option (ℕ × Memory)
one_longer none = none
one_longer (some (len, mem)) = some (suc len, mem)

decimal_loop-one_longer :
    (fuel place n : ℕ) (mem : Memory) (buf offset : ℕ)
    → finished (decimal_loop fuel place n (out mem buf (offset + 1)))
      ≡ one_longer (finished (decimal_loop fuel place n (out mem buf offset)))
unfolding decimal_loop
decimal_loop-one_longer zero place n mem buf offset = refl
decimal_loop-one_longer (suc fuel) place n mem buf offset = elim (Bool-cases (place == 0)) [
  | inl e ↦ rw e (ap some (ap (λ l. (l, update mem buf 0)) (omega arith)))
  | inr e ↦ rw e (
      decimal_loop-one_longer fuel (place / 10) n (update mem buf (n / place % 10 + 48)) (buf + 1)
        (offset + 1))
]

put_decimal-one_longer :
    (fuel n : ℕ) (mem : Memory) (buf : ℕ)
    → put_decimal fuel n (out mem buf 1) ≡ one_longer (put_decimal fuel n (out mem buf 0))
unfolding put_decimal
put_decimal-one_longer fuel n mem buf = go (first_place fuel 1000000000 n)
  where
    go :
        (place : Option ℕ)
        → from_place fuel n (out mem buf 1) place
          ≡ one_longer (from_place fuel n (out mem buf 0) place)
    go none = refl
    go (some place) = decimal_loop-one_longer fuel place n mem buf 0

-- A positive number behind a minus sign.
put_decimal_signed :
    (fuel m buf : ℕ) (mem : Memory)
    → 0 < m
    → m < 2 ^ 31
    → 11 ≤ fuel
    → (len : ℕ) × (mem' : Memory) × (put_decimal fuel m (put (out mem buf 0) 45)
        ≡ some (suc len, mem'))
      × (mem' buf ≡ 45)
      × IsPrinted 10 10 m (buf + 1) (update mem buf 45) len mem'
      × NoLeadingZero m len
put_decimal_signed fuel m buf mem positive int le =
    let signed = update mem buf 45 in
    let (len, mem', is, printed, lead) =
      put_decimal-IsPrinted fuel m (buf + 1) signed positive int le in
    let here : (buf == buf) ≡ true = ground arith in
    let sign : update mem buf 45 buf ≡ 45 = rw here refl in
    (
      len,
      mem',
      put_decimal-one_longer fuel m signed (buf + 1) ∙ ap one_longer is,
      printed.kept buf (inl (omega arith)) ∙ sign,
      printed,
      lead,
    )

-- For a word that is not 2 ^ 31, kputd_buf ends within eleven rounds of each loop. It answers the
-- number of characters before the NUL: the digits, at most ten, of the number, or a minus sign and
-- the digits of the absolute value if the word is negative, the first of several digits not being 0;
-- it changes no word behind the NUL and
-- none before the buffer.
pub kputd_buf-PrintedDecimal :
    (fuel n buf : ℕ) (mem : Memory)
    → n < 2 ^ 32
    → n ≢ 2 ^ 31
    → 11 ≤ fuel
    → (len : ℕ) × (mem' : Memory) × (kputd_buf fuel n buf mem ≡ some (len, mem'))
      × PrintedDecimal n buf mem len mem'
unfolding kputd_buf
kputd_buf-PrintedDecimal fuel n buf mem lt least le = elim (Bool-cases (n == 0)) [
  | inl e ↦
      let zeros = put-IsWritten {base = 10} 48 0 refl refl (IsWritten-empty 10 buf mem) in
      let is : 0 * 10 + 0 ≡ n = ground (arith, e) in
      let w = subst (IsWritten 10 buf mem (put (out mem buf 0) 48)) is zeros in
      (
        1,
        _,
        rw e refl,
        plain (ground (arith, e)) (finish-IsPrinted 10 w (omega arith) (omega arith))
            (λ several. absurd (omega arith)),
      )
  | inr e ↦ elim (Bool-cases (leb (2 ^ 31) n)) [
    | inl neg ↦
        let int : 2 ^ 31 < n = ground (arith, neg, least) in
        let m = (2 ^ 32 - n) % 2 ^ 32 in
        let (len, mem', is, sign, printed, lead) =
          put_decimal_signed fuel m buf mem (omega arith) (omega arith) le in
        (suc len, mem', rw (e, neg) is, signed int (omega arith) sign printed lead)
    | inr pos ↦
        let (len, mem', is, printed, lead) =
          put_decimal-IsPrinted fuel n buf mem (ground arith) (ground arith) le in
        (len, mem', rw (e, pos) is, plain (ground arith) printed lead)
  ]
]
