-- ===== src/Format/Number.antt =====
-- `kprintf_vm` of a text and a decimal number.
use winix.Prelude.{ℕ, ◌+◌, ◌<◌, ◌≡◌, true, false, List, ◌==◌}
use winix.Strings.{Memory}
use winix.Format.{Options}

-- The format: `k` characters that are no '%', then "%d" and the end.
pub record IsNumberFormat (mem : Memory) (format k : ℕ) : Type 0 where
  pub text :
      (i : ℕ) → i < k → ((mem (format + i) == 0) ≡ false) × ((mem (format + i) == 37) ≡ false)
  pub percent : mem (format + k) ≡ 37
  pub letter : mem (format + k + 1) ≡ 100
  pub nul : mem (format + k + 2) ≡ 0

-- No options.
abbrev bare : (format : ℕ) → Memory → Options
bare format mem = record { format = format; left = true; token = 32; padding_len = 0; mem = mem }
