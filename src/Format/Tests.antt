-- ===== src/Format/Tests.antt =====
-- Tests of `kprintf_vm` on a device that is the list of what it was given.
use winix.Prelude.{
  ℕ, zero, suc, arith, ◌%◌, ◌^◌, ◌≡◌, refl, some, List, [], ◌∷◌, ◌++◌, length, get_or, ◌==◌, ◌+◌,
  ◌<◌, ◌-◌, false, if◌then◌else◌,
}
use winix.Strings.{Memory, strlen, end_of}
use winix.Strings.Length.{IsString}
use winix.Print.{
  kputd_buf, put_decimal, first_place, decimal_loop, kputx_buf, hex_loop, atoi, atoi_loop,
}
use winix.Format.{
  Frame, kprintf_vm, format_loop, conversion, decode, convert, padding_digits, words, print_piece,
  append_buffer, fill_padding, padding_loop, add_char_to_buffer, flush_buffer, flush_buffer_data,
  copy_in,
}
use winix.Tty.{tty_write_rex}
use winix.Format.Direct.{IsPlain}
use winix.Format.Serial.{serial, kprintf_vm-serial}

abbrev listed : List ℕ → List ℕ → ℕ × List ℕ
listed xs device = (length xs, device ++ xs)

-- The format "n%4d%x" at 0, the arguments 12 and 171 at 20.
abbrev page : Memory
page a = get_or (110 ∷ 37 ∷ 52 ∷ 100 ∷ 37 ∷ 120 ∷ 0 ∷ []) a (if a == 20 then 12 else 171)

abbrev frame : Frame
frame = record { format_buffer = 40; padding_num_buffer = 60; who_rbase = 0 }

-- "n  12AB" behind what was there
numbers_are_printed :
    kprintf_vm listed frame 15 0 20 page (7 ∷ [])
    ≡ some (7, 7 ∷ 110 ∷ 32 ∷ 32 ∷ 49 ∷ 50 ∷ 65 ∷ 66 ∷ [])
unfolding kprintf_vm format_loop conversion decode convert padding_digits words print_piece
    append_buffer fill_padding padding_loop add_char_to_buffer flush_buffer flush_buffer_data
    copy_in kputd_buf put_decimal first_place decimal_loop kputx_buf hex_loop atoi atoi_loop strlen
    end_of
numbers_are_printed = refl

-- The format "A" and the character 200 at 0.
abbrev plain_page : Memory
plain_page a = get_or (65 ∷ 200 ∷ 0 ∷ 37 ∷ []) a 9

plain_page-IsString : IsString plain_page 0 2
plain_page-IsString = record { words = letters; nul = refl }
  where
    letters : (i : ℕ) → i < 2 → (plain_page (0 + i) == 0) ≡ false
    letters zero lt = refl
    letters (suc zero) lt = refl
    letters (suc (suc i)) lt = absurd (omega arith)

plain_page-IsPlain : IsPlain plain_page 0 2
plain_page-IsPlain zero lt = refl
plain_page-IsPlain (suc zero) lt = refl
plain_page-IsPlain (suc (suc i)) lt = absurd (omega arith)

kprintf_vm-serial_example :
    kprintf_vm tty_write_rex frame 3 0 20 plain_page (7 ∷ [])
    ≡ some (2 % 2 ^ 32, 7 ∷ serial (words plain_page 0 2))
kprintf_vm-serial_example =
    kprintf_vm-serial frame 3 0 20 2 plain_page (7 ∷ []) plain_page-IsString plain_page-IsPlain
      (omega arith)

-- The format "n=%d" at 0, the argument -305 at 20.
abbrev number_page : Memory
number_page a = get_or (110 ∷ 61 ∷ 37 ∷ 100 ∷ 0 ∷ []) a (if a == 20 then 2 ^ 32 - 305 else 7)
