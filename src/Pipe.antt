-- ===== src/Pipe.antt =====
-- The data of a pipe in fs/system/pipe.c: _pipe_read, _pipe_write and shift_pipe_data. The page
-- `pipe->data`, which no process can use, is a memory of its own; `mem` is that of the processes.
pub mod Fifo
mod Tests
use winix.Prelude.{
  ℕ, zero, suc, ◌+◌, ◌-◌, ◌*◌, ◌^◌, ◌%◌, Bool, true, false, ltb, ◌==◌, if◌then◌else◌,
}
use winix.Ready.{update}
use winix.Strings.{Memory}

abbrev pub pipe_limit : ℕ
pipe_limit = 1024

pub record Pipe : Type 0 where
  pub pipe_data : Memory
  pub pos : ℕ

-- The loops that copy `n` words from `from` in one memory to `to` in the other.
unfoldable pub copy_words : (n to from : ℕ) → (target source : Memory) → Memory
copy_words zero to from target source = target
copy_words (suc n) to from target source =
    copy_words n (to + 1) (from + 1) (update target to (source from)) source

-- The first loop of shift_pipe_data, with `n` rounds left.
unfoldable pub shift_words : (n i j : ℕ) → Memory → Memory
shift_words zero i j bytes = bytes
shift_words (suc n) i j bytes =
    shift_words n (i + 1) (j + 1) (update (update bytes j (bytes i)) i 0)

-- Its second loop.
unfoldable pub clear_words : (n k : ℕ) → Memory → Memory
clear_words zero k bytes = bytes
clear_words (suc n) k bytes = clear_words n (k + 1) (update bytes k 0)

unfoldable pub shift_pipe_data : Pipe → ℕ → Pipe
shift_pipe_data pipe i =
    let n = pipe.pos - i in
    record { pipe_data = clear_words (pipe.pos - n) n (shift_words n i 0 pipe.pipe_data); pos = n }

-- _pipe_read to address `to`: what it returns, the pipe and the memory of the processes.
unfoldable pub pipe_read_data : Pipe → (to count : ℕ) → Memory → ℕ × Pipe × Memory
pipe_read_data pipe to count mem =
    let end = if ltb count pipe.pos then count else pipe.pos in
    (end, shift_pipe_data pipe end, copy_words end to 0 mem pipe.pipe_data)

-- _pipe_write from address `from`: what it returns, and the pipe.
unfoldable pub pipe_write_data : Pipe → (from count : ℕ) → Memory → ℕ × Pipe
pipe_write_data pipe from count mem =
    let wanted = (pipe.pos + count) % 2 ^ 32 in
    let end = if ltb wanted pipe_limit then wanted else pipe_limit in
    let n = end - pipe.pos in
    (n, record { pipe_data = copy_words n pipe.pos from pipe.pipe_data mem; pos = pipe.pos + n })
