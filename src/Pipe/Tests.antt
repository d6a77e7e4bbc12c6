-- ===== src/Pipe/Tests.antt =====
-- Tests of the data of a pipe, and the example of its theorem.
use winix.Prelude.{◌≤◌, ◌≡◌, refl, [], ◌∷◌, ◌++◌, arith, get_or, ◌⊎◌}
use winix.Strings.{Memory}
use winix.Format.{words}
use winix.Pipe.{
  Pipe, pipe_limit, copy_words, shift_words, clear_words, shift_pipe_data, pipe_read_data,
  pipe_write_data,
}
use winix.Pipe.Fifo.{waiting, pipe_read_data-pipe_write_data}

abbrev two_words : Pipe
two_words = record { pipe_data = λ a. get_or (5 ∷ 6 ∷ []) a 0; pos = 2 }

abbrev user : Memory
user a = a

written : waiting (pipe_write_data two_words 100 2 user).1 ≡ 5 ∷ 6 ∷ 100 ∷ 101 ∷ []
unfolding pipe_write_data copy_words words
written = refl

-- A read of no words clears the data but leaves the position.
nothing_read : waiting (pipe_read_data two_words 300 0 user).1 ≡ 0 ∷ 0 ∷ []
unfolding pipe_read_data shift_pipe_data shift_words clear_words words
nothing_read = refl

pipe_read_data_example :
    let put = pipe_write_data two_words 100 2 user in
    let got = pipe_read_data put.1 300 3 user in
    (words got.2 300 got.0 ++ waiting got.1 ≡ waiting two_words ++ words user 100 put.0)
    × ((put.0 ≡ 2) ⊎ (put.1.pos ≡ pipe_limit))
    × ((got.0 ≡ 3) ⊎ (got.1.pos ≡ 0))
    × (put.1.pos ≤ pipe_limit)
pipe_read_data_example =
    pipe_read_data-pipe_write_data two_words 100 2 300 3 user user (omega arith) (omega arith)
      (omega arith)
