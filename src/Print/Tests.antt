-- ===== src/Print/Tests.antt =====
-- Tests of the printing of numbers, and the examples of its theorems.
use winix.Prelude.{ℕ, ◌-◌, ◌^◌, ◌≡◌, refl, Option, none, some, ltb, if◌then◌else◌, arith}
use winix.Strings.{Memory}
use winix.Print.{kputx_buf, hex_loop, kputd_buf, put_decimal, first_place, decimal_loop, atoi}
use winix.Print.Decimal.{PrintedDecimal, kputd_buf-PrintedDecimal}
use winix.Print.Atoi.{atoi-kputd_buf}

abbrev blank : Memory
blank a = 7

-- 0x2AF and -305
hex_is_written : ((kputx_buf 687 100 blank).0 ≡ 3) × ((kputx_buf 687 100 blank).1 101 ≡ 65)
unfolding kputx_buf hex_loop
hex_is_written = (refl, refl)

abbrev answer : Option (ℕ × Memory) → ℕ × ℕ
answer none = (0, 0)
answer (some (len, mem)) = (len, mem 101)

sign_is_written : answer (kputd_buf 11 (2 ^ 32 - 305) 100 blank) ≡ (4, 51)
unfolding kputd_buf put_decimal first_place decimal_loop
sign_is_written = refl

kputd_buf_example :
    (len : ℕ) × (mem' : Memory) × (kputd_buf 11 305 100 blank ≡ some (len, mem'))
    × PrintedDecimal 305 100 blank len mem'
kputd_buf_example =
    kputd_buf-PrintedDecimal 11 305 100 blank (omega arith) (ground arith) (omega arith)

atoi_example :
    (len : ℕ) × (mem' : Memory) × (kputd_buf 11 305 100 blank ≡ some (len, mem'))
    × (atoi 11 100 mem' ≡ some (if ltb 305 (2 ^ 31) then 305 else 0))
atoi_example = atoi-kputd_buf 11 305 100 blank (omega arith) (ground arith) (omega arith)
