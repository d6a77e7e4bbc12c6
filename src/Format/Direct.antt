-- ===== src/Format/Direct.antt =====
-- `kprintf_vm` against printing each character at once.
use mathlib.Core.List.{append_assoc, append-nil}
use mathlib.Core.Option.{map, map-map}
use mathlib.Core.Path.{subst}
use winix.Prelude.{
  ℕ, zero, suc, ◌+◌, ◌-◌, ◌%◌, ◌^◌, ◌<◌, ◌≡◌, refl, ◌∙◌, sym, ap, Bool, true, false, List, [], ◌∷◌,
  ◌++◌, ◌==◌, ltb, if◌then◌else◌, arith, length, replicate, Option, none, some, Bool-cases, inl,
  inr,
}
use winix.Strings.{Memory}
use winix.Strings.Length.{IsString, IsString-first, IsString-empty, IsString-rest}
use winix.Format.{
  words, PrintfBuffer, Options, Piece, Frame, conversion, print_piece, format_loop, kprintf_vm,
  flush_buffer, empty_buffer, with_piece,
}
use winix.Format.Words.{length-words}
use winix.Format.Buffering.{
  IsWriter, IsBuffered, flush_buffer-IsBuffered, add_char_to_buffer-IsBuffered,
  append_buffer-IsBuffered, fill_padding-IsBuffered, drained,
}

-- The characters of a conversion: padded on the left, or on the right, up to the width.
abbrev pub padded : (left : Bool) → List ℕ → (padding : List ℕ) → List ℕ
padded left cs padding = if left then padding ++ cs else cs ++ padding

abbrev pub text_of : Options → Piece → List ℕ
text_of o p =
    padded o.left (words p.mem p.format_ptr p.format_buf_len)
      (replicate (o.padding_len - p.format_buf_len) o.token)

padded-nothing : (left : Bool) (cs : List ℕ) → padded left cs [] ≡ cs
padded-nothing true cs = refl
padded-nothing false cs = append-nil cs

-- All that a format prints, without a buffer or a device.
unfoldable pub rendered : Frame → (fuel format arg : ℕ) → Memory → Option (List ℕ)
rendered frame zero format arg mem = none
rendered frame (suc fuel) format arg mem =
    if mem format == 0
    then some []
    else if mem format == 37
    then with_piece (conversion frame fuel (format + 1) arg mem) (λ o p.
      map (λ rest. text_of o p ++ rest) (rendered frame fuel (o.format + 1) (arg + 1) p.mem))
    else map (λ rest. mem format ∷ rest) (rendered frame fuel (format + 1) arg mem)

module _ {Device : Type 0} {filp_write : List ℕ → Device → ℕ × Device} {contents : Device → List ℕ}
    {takes : List ℕ → List ℕ} (w : IsWriter filp_write contents takes) (before : List ℕ) where
  print_piece-IsBuffered :
      {tbuf : PrintfBuffer filp_write} {text : List ℕ} (o : Options) (p : Piece)
      → IsBuffered w before tbuf text
      → IsBuffered w before (print_piece filp_write o p tbuf) (text ++ text_of o p)
  unfolding print_piece
  print_piece-IsBuffered {tbuf} {text} o p v =
      let cs = words p.mem p.format_ptr p.format_buf_len in
      let padding = replicate (o.padding_len - p.format_buf_len) o.token in
      elim (Bool-cases (ltb 0 (o.padding_len - p.format_buf_len))) [
        | inl e ↦ elim (Bool-cases o.left) [
          | inl left ↦
              rw (e, left)
                (subst (IsBuffered w before _) (append_assoc text padding cs) (
                  append_buffer-IsBuffered w before p.mem p.format_ptr p.format_buf_len (
                    fill_padding-IsBuffered w before o.token (o.padding_len - p.format_buf_len) v)))
          | inr right ↦
              rw (e, right)
                (subst (IsBuffered w before _) (append_assoc text cs padding) (
                  fill_padding-IsBuffered w before o.token (o.padding_len - p.format_buf_len)
                    (append_buffer-IsBuffered w before p.mem p.format_ptr p.format_buf_len v)))
        ]
        | inr e ↦
            let nothing : o.padding_len - p.format_buf_len ≡ 0 = ground arith in
            let same : text ++ padded o.left cs [] ≡ text ++ cs =
              ap (λ l. text ++ l) (padded-nothing o.left cs) in
            rw (e, nothing)
              (subst (IsBuffered w before _) (sym same)
                (append_buffer-IsBuffered w before p.mem p.format_ptr p.format_buf_len v))
      ]

  -- What the loop makes of a buffer is what `rendered` says, behind the text.
  pub data Loops (text : List ℕ) : Option (PrintfBuffer filp_write) → Option (List ℕ) → Type 0 where
    out_of_fuel : Loops text none none
    prints :
        {tbuf : PrintfBuffer filp_write} {rest : List ℕ}
        → IsBuffered w before tbuf (text ++ rest)
        → Loops text (some tbuf) (some rest)

  -- One more piece of text in front of what is printed next.
  prepend :
      {text : List ℕ} {o : Option (PrintfBuffer filp_write)} {rest : Option (List ℕ)} (cs : List ℕ)
      → Loops (text ++ cs) o rest
      → Loops text o (map (λ r. cs ++ r) rest)
  prepend cs out_of_fuel = out_of_fuel
  prepend {text} cs (prints {rest} v) =
      prints (subst (IsBuffered w before _) (append_assoc text cs rest) v)

  next :
      {text : List ℕ} (c : Option (Options × Piece))
      (loop : Options → Piece → Option (PrintfBuffer filp_write))
      (rest : Options → Piece → Option (List ℕ))
      → ((o : Options) (p : Piece) → Loops (text ++ text_of o p) (loop o p) (rest o p))
      → Loops text
          (with_piece c loop)
          (with_piece c (λ o p. map (λ r. text_of o p ++ r) (rest o p)))
  next none loop rest all = out_of_fuel
  next (some (o, p)) loop rest all = prepend (text_of o p) (all o p)

  format_loop-Loops :
      (frame : Frame) (fuel format arg : ℕ) (mem : Memory) (tbuf : PrintfBuffer filp_write)
      (text : List ℕ)
      → IsBuffered w before tbuf text
      → Loops text
          (format_loop filp_write frame fuel format arg mem tbuf)
          (rendered frame fuel format arg mem)
  unfolding format_loop rendered
  format_loop-Loops frame zero format arg mem tbuf text v = out_of_fuel
  format_loop-Loops frame (suc fuel) format arg mem tbuf text v =
      elim (Bool-cases (mem format == 0)) [
        | inl e ↦ rw e (prints (subst (IsBuffered w before tbuf) (sym (append-nil text)) v))
        | inr e ↦ elim (Bool-cases (mem format == 37)) [
          | inl e' ↦
              rw (e, e')
                (next (conversion frame fuel (format + 1) arg mem) _ _ (λ o p.
                  format_loop-Loops frame fuel (o.format + 1) (arg + 1) p.mem
                    (print_piece filp_write o p tbuf) (text ++ text_of o p)
                    (print_piece-IsBuffered o p v)))
          | inr e' ↦
              rw (e, e')
                (prepend (mem format ∷ []) (
                  format_loop-Loops frame fuel (format + 1) arg mem _ (text ++ (mem format ∷ []))
                    (add_char_to_buffer-IsBuffered w before (mem format) v)))
        ]
      ]

  -- After the last flush, the device has what `rendered` says behind what it had before.
  pub finish-Loops :
      {o : Option (PrintfBuffer filp_write)} {rest : Option (List ℕ)}
      → Loops [] o rest
      → map {B = ℕ × List ℕ}
          (λ tbuf.
            let tbuf' = flush_buffer filp_write tbuf in (tbuf'.total_count, contents tbuf'.device))
          o
        ≡ map {B = ℕ × List ℕ} (λ t. (length t % 2 ^ 32, before ++ takes t)) rest
  finish-Loops out_of_fuel = refl
  finish-Loops (prints {tbuf} {rest} v) =
      let (v', empty) = flush_buffer-IsBuffered w before v in
      let total : (flush_buffer filp_write tbuf).total_count ≡ length rest % 2 ^ 32 =
        omega (arith, v'.count, v'.word, empty) in
      ap some (
        ap (λ n. (n, contents ((flush_buffer filp_write tbuf).device))) total
        ∙ ap (λ c. (length rest % 2 ^ 32, c)) (drained w before empty v'))

pub IsBuffered-empty :
    {Device : Type 0} {filp_write : List ℕ → Device → ℕ × Device} {contents : Device → List ℕ}
    {takes : List ℕ → List ℕ} (w : IsWriter filp_write contents takes) (device : Device)
    → IsBuffered w (contents device) (empty_buffer filp_write device) []
unfolding words
IsBuffered-empty w device = record {
  all = refl;
  count = refl;
  word = omega arith;
  size = refl;
  fits = omega arith;
}

-- On a device whose write puts what it takes of the words behind the ones it has and answers the
-- number of all of them, kprintf_vm answers and prints what the same conversions give without a
-- buffer: the same fuel is enough for both, the answer is the number of characters as a word, and the
-- device has what it takes of them, in order, behind what it had before.
pub kprintf_vm-rendered :
    {Device : Type 0} {filp_write : List ℕ → Device → ℕ × Device} {contents : Device → List ℕ}
    {takes : List ℕ → List ℕ}
    → IsWriter filp_write contents takes
    → (frame : Frame) (fuel format arg : ℕ) (mem : Memory) (device : Device)
    → map {B = ℕ × List ℕ}
        (λ (count, device'). (count, contents device'))
        (kprintf_vm filp_write frame fuel format arg mem device)
      ≡ map {B = ℕ × List ℕ}
          (λ t. (length t % 2 ^ 32, contents device ++ takes t))
          (rendered frame fuel format arg mem)
unfolding kprintf_vm
kprintf_vm-rendered {filp_write} {contents} w frame fuel format arg mem device =
    map-map _ _ (format_loop filp_write frame fuel format arg mem (empty_buffer filp_write device))
    ∙ finish-Loops w (contents device) (
        format_loop-Loops w (contents device) frame fuel format arg mem _ []
          (IsBuffered-empty w device))

-- Characters that are printed as they are: not '%'.
abbrev pub IsPlain : Memory → (format len : ℕ) → Type 0
IsPlain mem format len = (i : ℕ) → i < len → (mem (format + i) == 37) ≡ false

-- A format without conversions is printed as it is, and fuel for its characters is enough.
pub rendered-plain :
    (frame : Frame) (fuel format arg len : ℕ) (mem : Memory)
    → IsString mem format len
    → IsPlain mem format len
    → len < fuel
    → rendered frame fuel format arg mem ≡ some (words mem format len)
unfolding rendered words
rendered-plain frame zero format arg len mem str plain lt = absurd (omega arith)
rendered-plain frame (suc fuel) format arg zero mem str plain lt =
    let e : (mem format == 0) ≡ true = ground (arith, IsString-empty str) in rw e refl
rendered-plain frame (suc fuel) format arg (suc size) mem str plain lt =
    let at : format + 0 ≡ format = omega arith in
    let e' : (mem format == 37) ≡ false = rw at at (plain 0 (omega arith)) in
    let rest =
      rendered-plain frame fuel (format + 1) arg size mem (IsString-rest str)
        (λ i below.
          let same : format + 1 + i ≡ format + (i + 1) = omega arith in
          rw same (plain (i + 1) (omega arith)))
        (omega arith) in
    rw (IsString-first str, e', rest) refl

-- On such a device, kprintf_vm of a string without a '%' returns, within one round more than the
-- string has characters: it answers their number as a word, and the device has what it takes of them,
-- in order, behind what it had before.
pub kprintf_vm-plain :
    {Device : Type 0} {filp_write : List ℕ → Device → ℕ × Device} {contents : Device → List ℕ}
    {takes : List ℕ → List ℕ}
    → IsWriter filp_write contents takes
    → (frame : Frame) (fuel format arg len : ℕ) (mem : Memory) (device : Device)
    → IsString mem format len
    → IsPlain mem format len
    → len < fuel
    → map {B = ℕ × List ℕ}
        (λ (count, device'). (count, contents device'))
        (kprintf_vm filp_write frame fuel format arg mem device)
      ≡ some (len % 2 ^ 32, contents device ++ takes (words mem format len))
kprintf_vm-plain {contents = contents} {takes = takes} w frame fuel format arg size mem device str
      plain lt =
    kprintf_vm-rendered w frame fuel format arg mem device
    ∙ ap (map {B = ℕ × List ℕ} (λ t. (length t % 2 ^ 32, contents device ++ takes t)))
        (rendered-plain frame fuel format arg size mem str plain lt)
    ∙ ap (λ n. some (n % 2 ^ 32, contents device ++ takes (words mem format size)))
        (length-words mem format size)
