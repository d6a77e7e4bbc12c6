-- ===== src/Prelude/Bits.antt =====
-- The bits of a machine word: what `&`, `|`, `^`, `~` and `1 << k` do to each bit.
use Prim.Native.Nat.{ℕ, zero, suc, ◌+◌, ◌-◌, ◌*◌, ◌/◌, ◌%◌, ◌^◌, ◌≤◌, ◌<◌, differ}
use Prim.Native.Nat.{bit_and, bit_or, bit_xor, bit_and-bitwise}
use mathlib.Core.Path.{◌≡◌, refl, sym, ap, ◌∙◌}
use mathlib.Core.Logic.{inl, inr}
use mathlib.Core.Bool.{Bool, false, not, ◌&&◌, ◌||◌, xor}
use native.Mathlib.Nat.{pow-suc, pow-succ', one-le-pow, div-div-eq-div-mul}
use native.Mathlib.Omega.{arith}
use winix.Prelude.Tests.{ltb, ◌==◌, if◌then◌else◌, Bool-cases, lt→ltb}
use winix.Prelude.Digits.{bit_and-lowest, bit_or-lowest, bit_xor-lowest}

-- Whether the bit of weight 2 ^ k is set.
unfoldable pub bit : ℕ → ℕ → Bool
bit w zero = w % 2 == 1
bit w (suc k) = bit (w / 2) k

pub bit-zero : (k : ℕ) → bit 0 k ≡ false
unfolding bit
bit-zero zero = refl
bit-zero (suc k) = bit-zero k

pub bit-bit_and : (a b k : ℕ) → bit (bit_and a b) k ≡ (bit a k && bit b k)
unfolding bit
bit-bit_and a b zero = ground (arith, bit_and-lowest a b)
bit-bit_and a b (suc k) =
    let e : bit_and a b / 2 ≡ bit_and (a / 2) (b / 2) = omega (arith, bit_and-lowest a b) in
    rw e (bit-bit_and (a / 2) (b / 2) k)

pub bit-bit_or : (a b k : ℕ) → bit (bit_or a b) k ≡ (bit a k || bit b k)
unfolding bit
bit-bit_or a b zero = ground (arith, bit_or-lowest a b)
bit-bit_or a b (suc k) =
    let e : bit_or a b / 2 ≡ bit_or (a / 2) (b / 2) = omega (arith, bit_or-lowest a b) in
    rw e (bit-bit_or (a / 2) (b / 2) k)

-- `differ` on two binary digits is one, and is the exclusive or of them as truth values.
differ_digits :
    (x y : ℕ) → x < 2 → y < 2 → (differ x y < 2) × ((differ x y == 1) ≡ xor (x == 1) (y == 1))
unfolding xor
differ_digits zero zero p q = (omega arith, refl)
differ_digits zero (suc zero) p q = (omega arith, refl)
differ_digits (suc zero) zero p q = (omega arith, refl)
differ_digits (suc zero) (suc zero) p q = (omega arith, refl)
differ_digits (suc (suc x)) y p q = absurd (omega arith)
differ_digits zero (suc (suc y)) p q = absurd (omega arith)
differ_digits (suc zero) (suc (suc y)) p q = absurd (omega arith)

pub bit-bit_xor : (a b k : ℕ) → bit (bit_xor a b) k ≡ xor (bit a k) (bit b k)
unfolding bit
bit-bit_xor a b zero =
    let d = differ_digits (a % 2) (b % 2) (omega arith) (omega arith) in
    let e : bit_xor a b % 2 ≡ differ (a % 2) (b % 2) = omega (arith, bit_xor-lowest a b, d.0) in
    rw e d.1
bit-bit_xor a b (suc k) =
    let d = differ_digits (a % 2) (b % 2) (omega arith) (omega arith) in
    let e : bit_xor a b / 2 ≡ bit_xor (a / 2) (b / 2) = omega (arith, bit_xor-lowest a b, d.0) in
    rw e (bit-bit_xor (a / 2) (b / 2) k)

-- A power of two has its one bit set.
pub bit-pow : (i k : ℕ) → bit (2 ^ i) k ≡ (k == i)
unfolding bit
bit-pow zero zero = refl
bit-pow zero (suc k) = ground (arith, bit-zero k)
bit-pow (suc i) zero = ground (arith, pow-suc 2 i)
bit-pow (suc i) (suc k) =
    let e : 2 ^ suc i / 2 ≡ 2 ^ i = omega (arith, pow-suc 2 i) in rw e (ground (arith, bit-pow i k))

-- All ones below `n`.
pub bit-ones : (n k : ℕ) → bit (2 ^ n - 1) k ≡ ltb k n
unfolding bit
bit-ones zero k = ground (arith, bit-zero k)
bit-ones (suc n) zero = ground (arith, pow-suc 2 n, one-le-pow n 2)
bit-ones (suc n) (suc k) =
    let e : (2 ^ suc n - 1) / 2 ≡ 2 ^ n - 1 = omega (arith, pow-suc 2 n, one-le-pow n 2) in
    rw e (ground (arith, bit-ones n k))

pub bit-eq_false : (n w k : ℕ) → w < 2 ^ n → n ≤ k → bit w k ≡ false
unfolding bit
bit-eq_false zero w k h p = let e : w ≡ 0 = omega arith in rw e (bit-zero k)
bit-eq_false (suc n) w zero h p = absurd (omega arith)
bit-eq_false (suc n) w (suc k) h p =
    bit-eq_false n (w / 2) k (omega (arith, pow-suc 2 n)) (omega arith)

-- Two words are equal when their bits are.
pub bit_ext : (n a b : ℕ) → a < 2 ^ n → b < 2 ^ n → ((k : ℕ) → bit a k ≡ bit b k) → a ≡ b
unfolding bit
bit_ext zero a b p q h = omega arith
bit_ext (suc n) a b p q h =
    let e : a / 2 ≡ b / 2 =
      bit_ext n (a / 2) (b / 2) (omega (arith, pow-suc 2 n)) (omega (arith, pow-suc 2 n))
        (λ k. h (suc k)) in
    ground (arith, h 0)

-- Half as many steps as the number has units are enough.
bit_and-nil_below : (n a : ℕ) → a ≤ n → bit_and a 0 ≡ 0
bit_and-nil_below n zero h = refl
bit_and-nil_below zero (suc a) h = absurd (omega arith)
bit_and-nil_below (suc n) (suc a) h =
    omega (arith, bit_and-lowest (suc a) 0, bit_and-nil_below n (suc a / 2) (omega arith))

bit_and-nil : (a : ℕ) → bit_and a 0 ≡ 0
bit_and-nil a = bit_and-nil_below a a (omega arith)

zero-bit_and : (b : ℕ) → bit_and 0 b ≡ 0
zero-bit_and b = bit_and-bitwise 0 b

-- `w & (1 << k)` is zero exactly when the bit is clear.
pub bit_and-pow : (w k : ℕ) → bit_and w (2 ^ k) ≡ (if bit w k then 2 ^ k else 0)
unfolding bit
bit_and-pow w zero = ground (arith, bit_and-lowest w 1, bit_and-nil (w / 2))
bit_and-pow w (suc k) =
    let e : 2 ^ suc k / 2 ≡ 2 ^ k = omega (arith, pow-suc 2 k) in
    let l : 2 ^ suc k % 2 ≡ 0 = omega (arith, pow-suc 2 k) in
    rw (bit_and-lowest w (2 ^ suc k), e, l, bit_and-pow (w / 2) k) (ground (arith, pow-suc 2 k))

pow-ne-zero : (k : ℕ) → (2 ^ k == 0) ≡ false
pow-ne-zero k = ground (arith, one-le-pow k 2)

pub bit_and-pow_is_zero : (w k : ℕ) → (bit_and w (2 ^ k) == 0) ≡ not (bit w k)
bit_and-pow_is_zero w k = elim (Bool-cases (bit w k)) [
  | inl e ↦ rw (bit_and-pow w k, e) (pow-ne-zero k)
  | inr e ↦ rw (bit_and-pow w k, e) refl
]

pub bit_or-lt : (n a b : ℕ) → a < 2 ^ n → b < 2 ^ n → bit_or a b < 2 ^ n
bit_or-lt zero a b p q =
    let e : a ≡ 0 = omega arith in let f : b ≡ 0 = omega arith in rw (e, f) (omega arith)
bit_or-lt (suc n) a b p q = omega (
  arith,
  pow-suc 2 n,
  bit_or-lowest a b,
  bit_or-lt n (a / 2) (b / 2) (omega (arith, pow-suc 2 n)) (omega (arith, pow-suc 2 n)),
)

pub bit_and-lt : (n a b : ℕ) → a < 2 ^ n → bit_and a b < 2 ^ n
bit_and-lt zero a b p =
    let e : a ≡ 0 = omega arith in rw e (omega (arith, bit_and-lowest 0 b, zero-bit_and b))
bit_and-lt (suc n) a b p = omega (
  arith,
  pow-suc 2 n,
  bit_and-lowest a b,
  bit_and-lt n (a / 2) (b / 2) (omega (arith, pow-suc 2 n)),
)

-- `~(1 << k)` in a word of `n` bits.
pub bit-not_pow : (n i k : ℕ) → k < n → bit (bit_xor (2 ^ n - 1) (2 ^ i)) k ≡ not (k == i)
unfolding xor
bit-not_pow n i k h =
    rw (bit-bit_xor (2 ^ n - 1) (2 ^ i) k, bit-pow i k, bit-ones n k, lt→ltb k n h) (ground arith)

pow-bit_and : (w k : ℕ) → bit_and (2 ^ k) w ≡ (if bit w k then 2 ^ k else 0)
unfolding bit
pow-bit_and w zero = ground (arith, bit_and-lowest 1 w, zero-bit_and (w / 2))
pow-bit_and w (suc k) =
    let e : 2 ^ suc k / 2 ≡ 2 ^ k = omega (arith, pow-suc 2 k) in
    let l : 2 ^ suc k % 2 ≡ 0 = omega (arith, pow-suc 2 k) in
    rw (bit_and-lowest (2 ^ suc k) w, e, l, pow-bit_and (w / 2) k) (ground (arith, pow-suc 2 k))

pub pow-bit_and_is_zero : (w k : ℕ) → (bit_and (2 ^ k) w == 0) ≡ not (bit w k)
pow-bit_and_is_zero w k = elim (Bool-cases (bit w k)) [
  | inl e ↦ rw (pow-bit_and w k, e) (pow-ne-zero k)
  | inr e ↦ rw (pow-bit_and w k, e) refl
]

bit_or-nil_below : (n a : ℕ) → a ≤ n → bit_or a 0 ≡ a
bit_or-nil_below n zero h = refl
bit_or-nil_below zero (suc a) h = absurd (omega arith)
bit_or-nil_below (suc n) (suc a) h =
    omega (arith, bit_or-lowest (suc a) 0, bit_or-nil_below n (suc a / 2) (omega arith))

-- `w | (2 ^ n - 1)` rounds up to the last number of its block of 2 ^ n.
pub bit_or-ones : (n w : ℕ) → bit_or w (2 ^ n - 1) + 1 ≡ (w / 2 ^ n + 1) * 2 ^ n
bit_or-ones zero w = omega (arith, bit_or-nil_below w w (omega arith))
bit_or-ones (suc n) w =
    let half : (2 ^ suc n - 1) / 2 ≡ 2 ^ n - 1 = omega (arith, pow-suc 2 n, one-le-pow n 2) in
    let low : (2 ^ suc n - 1) % 2 ≡ 1 = omega (arith, pow-suc 2 n, one-le-pow n 2) in
    let quotient : w / 2 ^ suc n ≡ w / 2 / 2 ^ n =
      ap (λ t. w / t) (pow-succ' 2 n) ∙ sym (div-div-eq-div-mul w 2 (2 ^ n)) in
    rw (bit_or-lowest w (2 ^ suc n - 1), half, low, quotient, pow-suc 2 n)
      (omega (arith, bit_or-ones n (w / 2)))
