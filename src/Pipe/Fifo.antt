-- ===== src/Pipe/Fifo.antt =====
-- A pipe is a queue of words: what _pipe_write adds at the end and _pipe_read takes from the front.
use winix.Prelude.{
  ℕ, zero, suc, ◌+◌, ◌-◌, ◌≤◌, ◌<◌, ◌^◌, ◌%◌, ◌≡◌, refl, ◌∙◌, sym, ap, true, false, List, ◌∷◌, ◌++◌,
  ◌==◌, ltb, arith, if◌then◌else◌, ◌⊎◌,
}
use winix.Ready.{update}
use winix.Strings.{Memory}
use winix.Format.{words}
use winix.Pipe.{
  Pipe, pipe_limit, copy_words, shift_words, clear_words, shift_pipe_data, pipe_read_data,
  pipe_write_data,
}

-- The words that wait in a pipe, the oldest first.
abbrev pub waiting : Pipe → List ℕ
waiting pipe = words pipe.pipe_data 0 pipe.pos

words-ext :
    (n a b : ℕ) (m m' : Memory)
    → ((t : ℕ) → t < n → m (a + t) ≡ m' (b + t))
    → words m a n ≡ words m' b n
unfolding words
words-ext zero a b m m' same = refl
words-ext (suc n) a b m m' same =
    let e : a + 0 ≡ a = omega arith in
    let e' : b + 0 ≡ b = omega arith in
    let here : m a ≡ m' b = ap m (sym e) ∙ same 0 (omega arith) ∙ ap m' e' in
    let there : (t : ℕ) → t < n → m (a + 1 + t) ≡ m' (b + 1 + t) = λ t lt.
      let f : a + 1 + t ≡ a + suc t = omega arith in
      let f' : b + suc t ≡ b + 1 + t = omega arith in
      ap m f ∙ same (suc t) (omega arith) ∙ ap m' f' in
    rw (here, words-ext n (a + 1) (b + 1) m m' there) refl

words_split : (n k a : ℕ) (m : Memory) → words m a n ++ words m (a + n) k ≡ words m a (n + k)
unfolding words
words_split zero k a m =
    let e : a + 0 ≡ a = omega arith in let e' : 0 + k ≡ k = omega arith in rw (e, e') refl
words_split (suc n) k a m =
    let e : a + suc n ≡ a + 1 + n = omega arith in
    let e' : suc n + k ≡ suc (n + k) = omega arith in
    rw (e, e') (ap (λ l. m a ∷ l) (words_split n k (a + 1) m))

copy_words_below :
    (n to from : ℕ) (target source : Memory) (a : ℕ)
    → a < to
    → copy_words n to from target source a ≡ target a
unfolding copy_words
copy_words_below zero to from target source a lt = refl
copy_words_below (suc n) to from target source a lt =
    let e : (a == to) ≡ false = ground arith in
    copy_words_below n (to + 1) (from + 1) (update target to (source from)) source a (omega arith)
    ∙ rw e refl

copy_words_at :
    (n to from : ℕ) (target source : Memory) (t : ℕ)
    → t < n
    → copy_words n to from target source (to + t) ≡ source (from + t)
unfolding copy_words
copy_words_at zero to from target source t lt = absurd (omega arith)
copy_words_at (suc n) to from target source zero lt =
    let e : to + 0 ≡ to = omega arith in
    let e' : from + 0 ≡ from = omega arith in
    let is : (to == to) ≡ true = ground arith in
    rw (e, e')
      (copy_words_below n (to + 1) (from + 1) (update target to (source from)) source to
          (omega arith)
        ∙ rw is refl)
copy_words_at (suc n) to from target source (suc t) lt =
    let e : to + suc t ≡ to + 1 + t = omega arith in
    let e' : from + suc t ≡ from + 1 + t = omega arith in
    rw (e, e')
      (copy_words_at n (to + 1) (from + 1) (update target to (source from)) source t (omega arith))

clear_words_below : (n k : ℕ) (bytes : Memory) (a : ℕ) → a < k → clear_words n k bytes a ≡ bytes a
unfolding clear_words
clear_words_below zero k bytes a lt = refl
clear_words_below (suc n) k bytes a lt =
    let e : (a == k) ≡ false = ground arith in
    clear_words_below n (k + 1) (update bytes k 0) a (omega arith) ∙ rw e refl

shift_words_below :
    (n i j : ℕ) (bytes : Memory) (a : ℕ) → a < j → j < i → shift_words n i j bytes a ≡ bytes a
unfolding shift_words
shift_words_below zero i j bytes a lt ahead = refl
shift_words_below (suc n) i j bytes a lt ahead =
    let e : (a == i) ≡ false = ground arith in
    let e' : (a == j) ≡ false = ground arith in
    shift_words_below n (i + 1) (j + 1) (update (update bytes j (bytes i)) i 0) a (omega arith)
      (omega arith)
    ∙ rw (e, e') refl

-- The word at `j` + `t` is the one that was at `i` + `t`, if the loop moves words down.
shift_words_at :
    (n i j : ℕ) (bytes : Memory) (t : ℕ)
    → t < n
    → j < i
    → shift_words n i j bytes (j + t) ≡ bytes (i + t)
unfolding shift_words
shift_words_at zero i j bytes t lt ahead = absurd (omega arith)
shift_words_at (suc n) i j bytes zero lt ahead =
    let e : j + 0 ≡ j = omega arith in
    let e' : i + 0 ≡ i = omega arith in
    let other : (j == i) ≡ false = ground arith in
    let is : (j == j) ≡ true = ground arith in
    rw (e, e')
      (shift_words_below n (i + 1) (j + 1) (update (update bytes j (bytes i)) i 0) j (omega arith)
          (omega arith)
        ∙ rw (other, is) refl)
shift_words_at (suc n) i j bytes (suc t) lt ahead =
    let e : j + suc t ≡ j + 1 + t = omega arith in
    let e' : i + suc t ≡ i + 1 + t = omega arith in
    let other : (i + 1 + t == i) ≡ false = ground arith in
    let other' : (i + 1 + t == j) ≡ false = ground arith in
    rw (e, e')
      (shift_words_at n (i + 1) (j + 1) (update (update bytes j (bytes i)) i 0) t (omega arith)
          (omega arith)
        ∙ rw (other, other') refl)

-- Reading `n` words, if shifting by `n` moves words down or nothing waits.
taken_front :
    (pipe : Pipe) (n to : ℕ) (mem : Memory)
    → n ≤ pipe.pos
    → (0 < n) ⊎ (pipe.pos ≡ 0)
    → words (copy_words n to 0 mem pipe.pipe_data) to n ++ waiting (shift_pipe_data pipe n)
      ≡ waiting pipe
unfolding shift_pipe_data
taken_front pipe n to mem le moves =
    let left = pipe.pos - n in
    let shifted = shift_words left n 0 pipe.pipe_data in
    let cleared = clear_words (pipe.pos - left) left shifted in
    let kept : (t : ℕ) → t < left → cleared (0 + t) ≡ pipe.pipe_data (n + t) = λ t lt.
      clear_words_below (pipe.pos - left) left shifted (0 + t) (omega arith)
      ∙ shift_words_at left n 0 pipe.pipe_data t lt (ground arith) in
    let all : n + left ≡ pipe.pos = omega arith in
    ap (λ l. l ++ words cleared 0 left)
      (words-ext n to 0 (copy_words n to 0 mem pipe.pipe_data) pipe.pipe_data
        (copy_words_at n to 0 mem pipe.pipe_data))
    ∙ ap (λ l. words pipe.pipe_data 0 n ++ l) (words-ext left 0 n cleared pipe.pipe_data kept)
    ∙ ap (λ a. words pipe.pipe_data 0 n ++ words pipe.pipe_data a left) (ground arith)
    ∙ words_split n left 0 pipe.pipe_data
    ∙ ap (words pipe.pipe_data 0) all

added_behind :
    (pipe : Pipe) (n from : ℕ) (mem : Memory)
    → words (copy_words n pipe.pos from pipe.pipe_data mem) 0 (pipe.pos + n)
      ≡ waiting pipe ++ words mem from n
added_behind pipe n from mem =
    let bytes = copy_words n pipe.pos from pipe.pipe_data mem in
    let start : 0 + pipe.pos ≡ pipe.pos = omega arith in
    sym (words_split pipe.pos n 0 bytes)
    ∙ ap (λ a. words bytes 0 pipe.pos ++ words bytes a n) start
    ∙ ap (λ l. l ++ words bytes pipe.pos n)
        (words-ext pipe.pos 0 0 bytes pipe.pipe_data
          (λ t lt. copy_words_below n pipe.pos from pipe.pipe_data mem (0 + t) (omega arith)))
    ∙ ap (λ l. waiting pipe ++ l)
        (words-ext n pipe.pos from bytes mem (copy_words_at n pipe.pos from pipe.pipe_data mem))

-- What is read is the front of what waited, and the rest still waits.
pipe_read_data-waiting :
    (pipe : Pipe) (to count : ℕ) (mem : Memory)
    → 0 < count
    → let got = pipe_read_data pipe to count mem in
      (words got.2 to got.0 ++ waiting got.1 ≡ waiting pipe) × ((got.0 ≡ count) ⊎ (got.1.pos ≡ 0))
unfolding pipe_read_data shift_pipe_data
pipe_read_data-waiting pipe to count mem some_words =
    let end = if ltb count pipe.pos then count else pipe.pos in
    (taken_front pipe end to mem (ground arith) (ground arith), ground arith)

-- What is written waits behind what waited before.
pipe_write_data-waiting :
    (pipe : Pipe) (from count : ℕ) (mem : Memory)
    → pipe.pos ≤ pipe_limit
    → pipe.pos + count < 2 ^ 32
    → let put = pipe_write_data pipe from count mem in
      (waiting put.1 ≡ waiting pipe ++ words mem from put.0)
      × (put.1.pos ≤ pipe_limit)
      × ((put.0 ≡ count) ⊎ (put.1.pos ≡ pipe_limit))
unfolding pipe_write_data
pipe_write_data-waiting pipe from count mem room fits =
    let wanted = (pipe.pos + count) % 2 ^ 32 in
    let no_wrap : wanted ≡ pipe.pos + count = omega arith in
    let end = if ltb wanted pipe_limit then wanted else pipe_limit in
    (added_behind pipe (end - pipe.pos) from mem, ground arith, ground arith)

-- With at most PIPE_LIMIT words waiting in a pipe, and no overflow of the position, _pipe_write of
-- `count` words followed by _pipe_read of at least one is a queue: the words that are read, followed
-- by those that still wait, are those that waited before, followed by those that were written. All
-- are written unless the pipe gets full, all that are wanted are read unless it gets empty, and it
-- never holds more than PIPE_LIMIT.
pub pipe_read_data-pipe_write_data :
    (pipe : Pipe) (from count to wanted : ℕ) (mem mem' : Memory)
    → pipe.pos ≤ pipe_limit
    → pipe.pos + count < 2 ^ 32
    → 0 < wanted
    → let put = pipe_write_data pipe from count mem in
      let got = pipe_read_data put.1 to wanted mem' in
      (words got.2 to got.0 ++ waiting got.1 ≡ waiting pipe ++ words mem from put.0)
      × ((put.0 ≡ count) ⊎ (put.1.pos ≡ pipe_limit))
      × ((got.0 ≡ wanted) ⊎ (got.1.pos ≡ 0))
      × (put.1.pos ≤ pipe_limit)
pipe_read_data-pipe_write_data pipe from count to wanted mem mem' room fits some_words =
    let put = pipe_write_data pipe from count mem in
    let (behind, bound, all) = pipe_write_data-waiting pipe from count mem room fits in
    let (front, enough) = pipe_read_data-waiting put.1 to wanted mem' some_words in
    (front ∙ behind, all, enough, bound)
