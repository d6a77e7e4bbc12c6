-- ===== src/Format.antt =====
-- winix/sys_stdio.c: `struct printf_buffer` and `kprintf_vm`. The device that prints is a
-- parameter: `filp_write` takes the words and the device, and answers what it returns. The device's
-- position is part of its state. `format_buffer` and `padding_num_buffer` are addresses of the
-- caller's stack in the memory that also holds the format, the arguments and the strings.
pub mod Words
pub mod Buffering
pub mod Direct
pub mod Serial
pub mod Number
mod Tests
use mathlib.Core.Option.{map}
use winix.Prelude.{
  ℕ, zero, suc, ◌+◌, ◌-◌, ◌*◌, ◌/◌, ◌%◌, ◌^◌, Bool, true, false, not, ◌&&◌, ◌||◌, Option, none,
  some, List, [], ◌∷◌, ◌++◌, ltb, leb, ◌==◌, if◌then◌else◌,
}
use winix.Ready.{update}
use winix.Strings.{Memory, strlen}
use winix.Print.{is_digit, atoi, kputd_buf, kputx_buf}

abbrev pub buffer_siz : ℕ
buffer_siz = 64

-- The `n` words from `a` on.
unfoldable pub words : Memory → (a n : ℕ) → List ℕ
words mem a zero = []
words mem a (suc n) = mem a ∷ words mem (a + 1) n

-- The loop of `append_buffer`, with `n` words left, from `s` in the memory to `p` in the buffer.
unfoldable pub copy_in : (n p s : ℕ) → Memory → (buffer : ℕ → ℕ) → ℕ → ℕ
copy_in zero p s mem buffer = buffer
copy_in (suc n) p s mem buffer = copy_in n (p + 1) (s + 1) mem (update buffer p (mem s))

module _ {Device : Type 0} (filp_write : List ℕ → Device → ℕ × Device) where
  pub record PrintfBuffer : Type 0 where
    pub buffer : ℕ → ℕ
    pub limit : ℕ
    pub pos : ℕ
    pub total_count : ℕ
    pub device : Device

  unfoldable pub flush_buffer_data : PrintfBuffer → List ℕ → PrintfBuffer
  flush_buffer_data tbuf written =
      let (count, device) = filp_write written tbuf.device in
      record tbuf { total_count = (tbuf.total_count + count) % 2 ^ 32; device = device }

  unfoldable pub flush_buffer : PrintfBuffer → PrintfBuffer
  flush_buffer tbuf =
      if ltb 0 tbuf.pos
      then record (flush_buffer_data tbuf (words tbuf.buffer 0 tbuf.pos)) { pos = 0 }
      else tbuf

  -- `tbuf->buffer[tbuf->pos++] = c`
  abbrev pub store : PrintfBuffer → ℕ → PrintfBuffer
  store tbuf c = record tbuf { buffer = update tbuf.buffer tbuf.pos c; pos = tbuf.pos + 1 }

  unfoldable pub add_char_to_buffer : PrintfBuffer → ℕ → PrintfBuffer
  add_char_to_buffer tbuf c = store (if leb tbuf.limit tbuf.pos then flush_buffer tbuf else tbuf) c

  -- The end of `append_buffer`.
  abbrev pub copy_to : PrintfBuffer → Memory → (sbuf sbuf_len : ℕ) → PrintfBuffer
  copy_to tbuf mem sbuf sbuf_len = record tbuf {
    buffer = copy_in sbuf_len tbuf.pos sbuf mem tbuf.buffer;
    pos = tbuf.pos + sbuf_len;
  }

  unfoldable pub append_buffer : PrintfBuffer → Memory → (sbuf sbuf_len : ℕ) → PrintfBuffer
  append_buffer tbuf mem sbuf sbuf_len =
      if ltb tbuf.limit sbuf_len
      then flush_buffer_data (flush_buffer tbuf) (words mem sbuf sbuf_len)
      else copy_to (if leb tbuf.limit (sbuf_len + tbuf.pos) then flush_buffer tbuf else tbuf) mem
          sbuf sbuf_len

  -- The loop of `fill_padding`, with `len` characters left.
  unfoldable pub padding_loop : (len : ℕ) → PrintfBuffer → (token : ℕ) → PrintfBuffer
  padding_loop zero tbuf token = tbuf
  padding_loop (suc len) tbuf token = padding_loop len (add_char_to_buffer tbuf token) token

  unfoldable pub fill_padding : PrintfBuffer → (token len : ℕ) → PrintfBuffer
  fill_padding tbuf token len =
      padding_loop len (if leb tbuf.limit (len + tbuf.pos) then flush_buffer tbuf else tbuf) token

-- The loop that copies the digits of the width, with room for `n` more: the format behind them,
-- their number and the memory.
unfoldable pub padding_digits : (n format at count : ℕ) → Memory → ℕ × ℕ × Memory
padding_digits zero format at count mem = (format, count, mem)
padding_digits (suc n) format at count mem =
    if is_digit (mem format)
    then padding_digits n (format + 1) at (count + 1) (update mem (at + count) (mem format))
    else (format, count, mem)

-- What stands between the '%' and the letter: `format` is at the letter.
pub record Options : Type 0 where
  pub format : ℕ
  pub left : Bool
  pub token : ℕ
  pub padding_len : ℕ
  pub mem : Memory

-- The addresses that a call of `kprintf_vm` fixes.
pub record Frame : Type 0 where
  pub format_buffer : ℕ
  pub padding_num_buffer : ℕ
  pub who_rbase : ℕ

-- `padding_len` from the digits that were copied.
abbrev pub width : (at : ℕ) → ℕ × ℕ × Memory → Option (ℕ × ℕ × Memory)
width at (format, count, mem) =
    if ltb 0 count
    then map (λ n. (format, n, update mem (at + count) 0)) (atoi 3 at (update mem (at + count) 0))
    else some (format, 0, mem)

-- The options from the character behind '%' on.
unfoldable pub decode : Frame → (format : ℕ) → Memory → Option Options
decode frame format mem =
    let right = mem format == 45 in
    let format1 = if right then format + 1 else format in
    let zeros = mem format1 == 48 in
    let format2 = if zeros then format1 + 1 else format1 in
    map
      (λ (format3, n, mem'). record {
        format = if mem' format3 == 108 then format3 + 1 else format3;
        left = not right;
        token = if zeros then 48 else 32;
        padding_len = n;
        mem = mem';
      })
      (width frame.padding_num_buffer (padding_digits 2 format2 frame.padding_num_buffer 0 mem))

-- The characters that an argument is printed as: where they are, how many, and the memory.
pub record Piece : Type 0 where
  pub format_ptr : ℕ
  pub format_buf_len : ℕ
  pub mem : Memory

abbrev pub piece : (at : ℕ) → ℕ × Memory → Piece
piece at (len, mem) = record { format_ptr = at; format_buf_len = len; mem = mem }

-- `switch(*format)`; `arg` is the address of the argument.
unfoldable pub convert : Frame → (fuel letter arg : ℕ) → Memory → Option Piece
convert frame fuel letter arg mem =
    let at = frame.format_buffer in
    let str = mem arg + frame.who_rbase in
    if letter == 100
    then map (piece at) (kputd_buf fuel (mem arg) at mem)
    else if (letter == 120) || (letter == 112)
    then some (piece at (kputx_buf (mem arg) at mem))
    else if letter == 115
    then if not (str == 0)
      then map (λ len. piece str (len, mem)) (strlen fuel str mem)
      else some (piece str (0, mem))
    else some (piece at (1, update mem at (mem arg)))

abbrev pub with_options : {A : Type 0} → Option Options → (Options → Option A) → Option A
with_options none go_on = none
with_options (some o) go_on = go_on o

-- One conversion, from the character behind '%' on: its options and its characters.
unfoldable pub conversion : Frame → (fuel format arg : ℕ) → Memory → Option (Options × Piece)
conversion frame fuel format arg mem =
    with_options (decode frame format mem)
      (λ o. map (λ p. (o, p)) (convert frame fuel (mem o.format) arg o.mem))

-- `kprintf_vm` goes on with the pieces of a conversion.
abbrev pub with_piece :
    {A : Type 0} → Option (Options × Piece) → (Options → Piece → Option A) → Option A
with_piece none go_on = none
with_piece (some (o, p)) go_on = go_on o p

module _ {Device : Type 0} (filp_write : List ℕ → Device → ℕ × Device) where
  -- The characters of a conversion and its padding; a width that is used up is no padding.
  unfoldable pub print_piece : Options → Piece → PrintfBuffer filp_write → PrintfBuffer filp_write
  print_piece o p tbuf =
      let padding_len = o.padding_len - p.format_buf_len in
      if ltb 0 padding_len
      then if o.left
        then append_buffer filp_write (fill_padding filp_write tbuf o.token padding_len) p.mem
            p.format_ptr p.format_buf_len
        else fill_padding filp_write
            (append_buffer filp_write tbuf p.mem p.format_ptr p.format_buf_len) o.token padding_len
      else append_buffer filp_write tbuf p.mem p.format_ptr p.format_buf_len

  -- `while(*format) ...`
  unfoldable pub format_loop :
      Frame
      → (fuel format arg : ℕ) → Memory
      → PrintfBuffer filp_write
      → Option (PrintfBuffer filp_write)
  format_loop frame zero format arg mem tbuf = none
  format_loop frame (suc fuel) format arg mem tbuf =
      if mem format == 0
      then some tbuf
      else if mem format == 37
      then with_piece (conversion frame fuel (format + 1) arg mem)
          (λ o p. format_loop frame fuel (o.format + 1) (arg + 1) p.mem (print_piece o p tbuf))
      else format_loop frame fuel (format + 1) arg mem
          (add_char_to_buffer filp_write tbuf (mem format))

  -- After `memset`, and the limit.
  abbrev pub empty_buffer : Device → PrintfBuffer filp_write
  empty_buffer device = record {
    buffer = λ i. 0;
    limit = buffer_siz;
    pos = 0;
    total_count = 0;
    device = device;
  }

  unfoldable pub kprintf_vm :
      Frame → (fuel orignal_format arg : ℕ) → Memory → Device → Option (ℕ × Device)
  kprintf_vm frame fuel orignal_format arg mem device =
      map (λ tbuf. let tbuf' = flush_buffer filp_write tbuf in (tbuf'.total_count, tbuf'.device))
        (format_loop frame fuel orignal_format arg mem (empty_buffer device))
