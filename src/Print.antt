-- ===== src/Print.antt =====
-- winix/sys_stdio.c: the numbers and the strings of the kernel's printf, on a memory of words, and
-- lib/stdlib/atoi.c, which reads a decimal number. An `int` is a word of 32 bits, negative from
-- 2 ^ 31 on.
pub mod Value
pub mod Hex
pub mod Decimal
pub mod Atoi
mod Tests
use winix.Prelude.{
  ℕ, zero, suc, ◌+◌, ◌-◌, ◌*◌, ◌/◌, ◌%◌, ◌^◌, Bool, true, false, not, ◌&&◌, ◌||◌, Option, none,
  some, ltb, leb, ◌==◌, if◌then◌else◌,
}
use winix.Ready.{update}
use winix.Strings.{Memory}

-- The memory with `*buf++ = c` and `offset++` done some times.
pub record Out : Type 0 where
  pub mem : Memory
  pub buf : ℕ
  pub offset : ℕ

abbrev pub out : Memory → (buf offset : ℕ) → Out
out mem buf offset = record { mem = mem; buf = buf; offset = offset }

-- `*buf++ = c; offset++;`
abbrev pub put : Out → (c : ℕ) → Out
put o c = out (update o.mem o.buf c) (o.buf + 1) (o.offset + 1)

-- `*buf = '\0'; return offset;`
abbrev pub finish : Out → ℕ × Memory
finish o = (o.offset, update o.mem o.buf 0)

-- One round of the loop of `kputx_buf`, for the digit `d`; `v` is set from the first digit that is
-- not 0 on.
abbrev pub put_hex : (d : ℕ) → (v : Bool) → Out → Out
put_hex d v o = if ltb d 10 then if v then put o (d + 48) else o else put o (d - 10 + 65)

-- The loop of `kputx_buf`, with `k` digits left, the next one at bit 4 * (k - 1).
unfoldable pub hex_loop : (k n : ℕ) → (v : Bool) → Out → Out
hex_loop zero n v o = o
hex_loop (suc k) n v o =
    let d = n / 16 ^ k % 16 in
    let v' = if not (d == 0) then true else v in hex_loop k n v' (put_hex d v' o)

unfoldable pub kputx_buf : (n buf : ℕ) → Memory → ℕ × Memory
unfolding hex_loop
kputx_buf n buf mem =
    if n == 0 then finish (put (out mem buf 0) 48) else finish (hex_loop 8 n false (out mem buf 0))

-- Whether `place > n` for a positive `place` and a word `n` that may be negative.
abbrev pub greater : (place n : ℕ) → Bool
greater place n = leb (2 ^ 31) n || ltb n place

-- `while(place > n) place /= 10;`
unfoldable pub first_place : (fuel place n : ℕ) → Option ℕ
first_place zero place n = none
first_place (suc fuel) place n =
    let rest = first_place fuel (place / 10) n in if greater place n then rest else some place

-- `while(place) ...`
unfoldable pub decimal_loop : (fuel place n : ℕ) → Out → Option Out
decimal_loop zero place n o = none
decimal_loop (suc fuel) place n o =
    if place == 0 then some o else decimal_loop fuel (place / 10) n (put o (n / place % 10 + 48))

abbrev pub finished : Option Out → Option (ℕ × Memory)
finished none = none
finished (some o) = some (finish o)

-- What follows the loop that finds the place of the first digit.
abbrev pub from_place : (fuel n : ℕ) → Out → (place : Option ℕ) → Option (ℕ × Memory)
from_place fuel n o none = none
from_place fuel n o (some place) = finished (decimal_loop fuel place n o)

-- The digits of a number that is not 0, behind its sign.
unfoldable pub put_decimal : (fuel n : ℕ) → Out → Option (ℕ × Memory)
unfolding first_place
put_decimal fuel n o = from_place fuel n o (first_place fuel 1000000000 n)

unfoldable pub kputd_buf : (fuel n buf : ℕ) → Memory → Option (ℕ × Memory)
unfolding put_decimal
kputd_buf fuel n buf mem =
    if n == 0
    then some (finish (put (out mem buf 0) 48))
    else if leb (2 ^ 31) n
    then put_decimal fuel ((2 ^ 32 - n) % 2 ^ 32) (put (out mem buf 0) 45)
    else put_decimal fuel n (out mem buf 0)

-- The loop of `kputs_vm_buf` from `sp` on.
unfoldable pub kputs_loop : (fuel sp : ℕ) → Out → Option Out
kputs_loop zero sp o = none
kputs_loop (suc fuel) sp o =
    let rest = kputs_loop fuel (sp + 1) (put o (o.mem sp)) in
    if not (o.mem sp == 0) then rest else some o

unfoldable pub kputs_vm_buf : (fuel s who_rbase buf : ℕ) → Memory → Option (ℕ × Memory)
kputs_vm_buf fuel s who_rbase buf mem = finished (kputs_loop fuel (s + who_rbase) (out mem buf 0))

-- `c >= '0' && c <= '9'`
abbrev pub is_digit : ℕ → Bool
is_digit c = leb 48 c && leb c 57

-- The loop of `atoi` from `p` on; `res` is a word.
unfoldable pub atoi_loop : (fuel p res : ℕ) → Memory → Option ℕ
atoi_loop zero p res mem = none
atoi_loop (suc fuel) p res mem =
    let rest = atoi_loop fuel (p + 1) ((res * 10 + mem p - 48) % 2 ^ 32) mem in
    if mem p == 0 then some res else if is_digit (mem p) then rest else some 0

unfoldable pub atoi : (fuel str : ℕ) → Memory → Option ℕ
unfolding atoi_loop
atoi fuel str mem = atoi_loop fuel str 0 mem
