-- ===== src/Format/Serial.antt =====
-- `kprintf_vm` on a serial port of driver/tty.c.
use mathlib.Core.List.{append_assoc, append-nil}
use mathlib.Core.Option.{map}
use winix.Prelude.{
  ℕ, ◌%◌, ◌^◌, ◌<◌, ◌≡◌, refl, ◌∙◌, sym, ap, leb, List, [], ◌∷◌, ◌++◌, arith, length, Option, none,
  some, Bool-cases, inl, inr, if◌then◌else◌,
}
use winix.Strings.{Memory}
use winix.Strings.Length.{IsString}
use winix.Tty.{tty_write_rex}
use winix.Format.{words, Frame, kprintf_vm}
use winix.Format.Buffering.{IsWriter}
use winix.Format.Direct.{IsPlain, kprintf_vm-plain}

-- The words that a serial port takes.
unfoldable pub serial : List ℕ → List ℕ
serial [] = []
serial (c ∷ cs) = let rest = serial cs in if leb c 127 then c ∷ rest else rest

serial-append : (xs ys : List ℕ) → serial (xs ++ ys) ≡ serial xs ++ serial ys
unfolding serial
serial-append [] ys = refl
serial-append (x ∷ xs) ys = elim (Bool-cases (leb x 127)) [
  | inl e ↦ rw e (ap (λ l. x ∷ l) (serial-append xs ys))
  | inr e ↦ rw e (serial-append xs ys)
]

abbrev pub on_port : List ℕ → List ℕ
on_port rex = rex

tty_write_rex-sent :
    (xs rex : List ℕ)
    → (on_port ((tty_write_rex xs rex).1) ≡ on_port rex ++ serial xs)
      × ((tty_write_rex xs rex).0 ≡ length xs)
unfolding tty_write_rex serial
tty_write_rex-sent [] rex = (sym (append-nil rex), refl)
tty_write_rex-sent (x ∷ xs) rex = elim (Bool-cases (leb x 127)) [
  | inl e ↦
      let (sent, count) = tty_write_rex-sent xs (rex ++ (x ∷ [])) in
      (rw e (sent ∙ append_assoc rex (x ∷ []) (serial xs)), rw e (omega (arith, count)))
  | inr e ↦
      let (sent, count) = tty_write_rex-sent xs rex in (rw e sent, rw e (omega (arith, count)))
]

pub tty_write_rex-IsWriter : IsWriter tty_write_rex on_port serial
unfolding serial
tty_write_rex-IsWriter = record {
  writes = λ xs rex. (tty_write_rex-sent xs rex).0;
  counts = λ xs rex. (tty_write_rex-sent xs rex).1;
  joins = serial-append;
  nothing = refl;
}

pub same_answer :
    (o : Option (ℕ × List ℕ)) → map {B = ℕ × List ℕ} (λ (count, rex). (count, on_port rex)) o ≡ o
same_answer none = refl
same_answer (some (count, rex)) = refl

-- On a serial port, kprintf_vm of a string without a '%' returns, within one round more than the
-- string has characters: it answers their number as a word, and behind what was sent before, the
-- port has sent those of the characters that are at most 127, each once and in order.
pub kprintf_vm-serial :
    (frame : Frame) (fuel format arg len : ℕ) (mem : Memory) (rex : List ℕ)
    → IsString mem format len
    → IsPlain mem format len
    → len < fuel
    → kprintf_vm tty_write_rex frame fuel format arg mem rex
      ≡ some (len % 2 ^ 32, rex ++ serial (words mem format len))
kprintf_vm-serial frame fuel format arg size mem rex str plain lt =
    sym (same_answer (kprintf_vm tty_write_rex frame fuel format arg mem rex))
    ∙ kprintf_vm-plain tty_write_rex-IsWriter frame fuel format arg size mem rex str plain lt
