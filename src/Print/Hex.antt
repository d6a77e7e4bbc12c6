-- ===== src/Print/Hex.antt =====
-- `kputx_buf`: what it writes reads back as the number.
use winix.Prelude.{
  ℕ, zero, suc, ◌+◌, ◌-◌, ◌*◌, ◌/◌, ◌%◌, ◌^◌, ◌≤◌, ◌<◌, ◌≡◌, refl, ◌∙◌, sym, Bool, true, false, not,
  ltb, ◌==◌, if◌then◌else◌, arith, Bool-cases, ◌⊎◌, inl, inr,
}
use mathlib.Core.Path.{subst}
use native.Mathlib.Numerals.{unary_clauses}
use winix.Strings.{Memory}
use winix.Print.{Out, out, put, put_hex, hex_loop, kputx_buf}
use winix.Print.Value.{
  IsWritten, IsWritten-empty, put-IsWritten, IsPrinted, finish-IsPrinted, next_digit-16,
}

-- The character of a digit.
char_of : ℕ → ℕ
char_of d = if ltb d 10 then d + 48 else d - 10 + 65

-- A digit that is not skipped.
put_hex-IsWritten :
    {start n : ℕ} {mem : Memory} {o : Out} (d : ℕ)
    → d < 16
    → IsWritten 16 start mem o n
    → IsWritten 16 start mem (put_hex d true o) (n * 16 + d)
put_hex-IsWritten {start} {n} {mem} {o} d lt v = elim (Bool-cases (ltb d 10)) [
  | inl e ↦ rw e (put-IsWritten (d + 48) d (ground arith) (ground arith) v)
  | inr e ↦ rw e (put-IsWritten (d - 10 + 65) d (ground arith) (ground arith) v)
]

-- What the loop has written before the digit at bit 4 * k: all digits above, or none if they are 0.
record Hexed (k n start : ℕ) (mem : Memory) (v : Bool) (o : Out) : Type 0 where
  written : IsWritten 16 start mem o (n / 16 ^ k)
  short : o.offset + k ≤ 8
  started : ((v ≡ true) × (0 < o.offset)) ⊎ ((v ≡ false) × (o.offset ≡ 0) × (n / 16 ^ k ≡ 0))

-- One digit that is not skipped, and one that is.
hex_put :
    {n start : ℕ} {mem : Memory} {v : Bool} {o : Out} (k d : ℕ)
    → d < 16
    → n / 16 ^ suc k * 16 + d ≡ n / 16 ^ k
    → Hexed (suc k) n start mem v o
    → Hexed k n start mem true (put_hex d true o)
hex_put {n} {start} {mem} {v} {o} k d lt next h = record {
  written =
      subst (IsWritten 16 start mem (put_hex d true o)) next (put_hex-IsWritten d lt h.written);
  short = ground (arith, h.short);
  started = inl (refl, ground arith);
}

hex_skip :
    {n start : ℕ} {mem : Memory} {o : Out} (k : ℕ)
    → n / 16 ^ suc k * 16 + 0 ≡ n / 16 ^ k
    → Hexed (suc k) n start mem false o
    → Hexed k n start mem false (put_hex 0 false o)
hex_skip {n} {start} {mem} {o} k next h = elim (h.started) [
  | inl (v, _) ↦ absurd (ground (arith, v))
  | inr (_, none_yet, zero_above) ↦
      let zero_here : n / 16 ^ k ≡ 0 = omega (arith, next, zero_above) in
      record {
        written = subst (IsWritten 16 start mem o) (zero_above ∙ sym zero_here) h.written;
        short = omega (arith, h.short);
        started = inr (refl, none_yet, zero_here);
      }
]

hex_step :
    {n start : ℕ} {mem : Memory} {o : Out} (k d : ℕ) (v : Bool)
    → d < 16
    → n / 16 ^ suc k * 16 + d ≡ n / 16 ^ k
    → Hexed (suc k) n start mem v o
    → (let v' = if not (d == 0) then true else v in Hexed k n start mem v' (put_hex d v' o))
hex_step k zero true lt next h = hex_put k 0 lt next h
hex_step k zero false lt next h = hex_skip k next h
hex_step k (suc d) v lt next h =
    let positive : (suc d == 0) ≡ false = ground arith in rw positive (hex_put k (suc d) lt next h)

hex_loop-Hexed :
    {n start : ℕ} {mem : Memory} (k : ℕ) (v : Bool) (o : Out)
    → Hexed k n start mem v o
    → (v' : Bool) × Hexed 0 n start mem v' (hex_loop k n v o)
unfolding hex_loop
hex_loop-Hexed zero v o h = (v, h)
hex_loop-Hexed {n} (suc k) v o h =
    let next : n / 16 ^ suc k * 16 + n / 16 ^ k % 16 ≡ n / 16 ^ k =
      simp unary_clauses (next_digit-16 n (16 ^ k)) in
    hex_loop-Hexed k _ _ (hex_step k (n / 16 ^ k % 16) v (omega arith) next h)

-- The loop on the whole word.
hex_word :
    (n start : ℕ) (mem : Memory)
    → n < 2 ^ 32
    → 0 < n
    → (let o = hex_loop 8 n false (out mem start 0) in
        IsWritten 16 start mem o n × (0 < o.offset) × (o.offset ≤ 8))
hex_word n start mem lt positive =
    let above : n / 16 ^ 8 ≡ 0 = omega arith in
    let whole : n / 16 ^ 0 ≡ n = omega arith in
    let (v, h) = hex_loop-Hexed {n = n} 8 false (out mem start 0) (record {
      written =
          subst (IsWritten 16 start mem (out mem start 0)) (sym above)
            (IsWritten-empty 16 start mem);
      short = omega arith;
      started = inr (refl, refl, above);
    }) in
    (
      subst (IsWritten 16 start mem (hex_loop 8 n false (out mem start 0))) whole h.written,
      elim (h.started) [
        | inl (_, some_digit) ↦ some_digit
        | inr (_, _, z) ↦ absurd (omega (arith, z))
      ],
      omega (arith, h.short),
    )

-- For a word, kputx_buf writes one to eight hexadecimal digits and a NUL and changes no other word;
-- it answers the number of digits, and they stand for the word.
pub kputx_buf-IsPrinted :
    (n buf : ℕ) (mem : Memory)
    → n < 2 ^ 32
    → (let (len, mem') = kputx_buf n buf mem in IsPrinted 16 8 n buf mem len mem')
unfolding kputx_buf
kputx_buf-IsPrinted n buf mem lt = elim (Bool-cases (n == 0)) [
  | inl e ↦
      let zeros = put-IsWritten {base = 16} 48 0 refl refl (IsWritten-empty 16 buf mem) in
      let is : 0 * 16 + 0 ≡ n = ground (arith, e) in
      rw e (
        finish-IsPrinted 8 (subst (IsWritten 16 buf mem (put (out mem buf 0) 48)) is zeros)
          (omega arith) (omega arith))
  | inr e ↦ let (w, p, s) = hex_word n buf mem lt (ground arith) in rw e (finish-IsPrinted 8 w p s)
]
