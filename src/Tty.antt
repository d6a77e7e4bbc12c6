-- ===== src/Tty.antt =====
-- driver/tty.c: writing to a serial port. The port is the list of what was put in its transmit
-- register, each time after the wait for it to be free.
use winix.Prelude.{ℕ, ◌+◌, Bool, List, [], ◌∷◌, ◌++◌, leb, if◌then◌else◌}

-- IS_SERIAL_CODE; a negative word is a large one.
abbrev pub is_serial_code : ℕ → Bool
is_serial_code c = leb c 127

-- The words `data` to `data + len` on the port; every word is counted in the answer.
unfoldable pub tty_write_rex : (data_words : List ℕ) → (rex : List ℕ) → ℕ × List ℕ
tty_write_rex [] rex = (0, rex)
tty_write_rex (p ∷ rest) rex =
    let (n, rex') = tty_write_rex rest (if is_serial_code p then rex ++ (p ∷ []) else rex) in
    (n + 1, rex')
