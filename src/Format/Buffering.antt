-- ===== src/Format/Buffering.antt =====
-- `struct printf_buffer`: what was printed is what the device has, and then what is buffered.
use mathlib.Core.List.{append_assoc, append-nil}
use mathlib.Core.Path.{subst}
use winix.Prelude.{
  ℕ, zero, suc, ◌+◌, ◌%◌, ◌^◌, ◌≤◌, ◌<◌, ◌≡◌, refl, ◌∙◌, sym, ap, List, [], ◌∷◌, ◌++◌, leb, ltb,
  if◌then◌else◌, arith, length, length-append, replicate, Bool-cases, inl, inr,
}
use winix.Strings.{Memory}
use winix.Format.{
  buffer_siz, words, PrintfBuffer, flush_buffer_data, flush_buffer, store, copy_to,
  add_char_to_buffer, append_buffer, padding_loop, fill_padding,
}
use winix.Format.Words.{words-store, words-copy_in, length-words}

-- A device whose write puts what it takes of the words behind the ones it has, and answers the
-- number of all of them. What it takes depends on each word alone.
pub record IsWriter {Device : Type 0} (filp_write : List ℕ → Device → ℕ × Device)
    (contents : Device → List ℕ) (takes : List ℕ → List ℕ) : Type 0 where
  pub writes : (xs : List ℕ) (d : Device) → contents ((filp_write xs d).1) ≡ contents d ++ takes xs
  pub joins : (xs ys : List ℕ) → takes (xs ++ ys) ≡ takes xs ++ takes ys
  pub nothing : takes [] ≡ []
  pub counts : (xs : List ℕ) (d : Device) → (filp_write xs d).0 ≡ length xs

module _ {Device : Type 0} {filp_write : List ℕ → Device → ℕ × Device} {contents : Device → List ℕ}
    {takes : List ℕ → List ℕ} (w : IsWriter filp_write contents takes) (before : List ℕ) where
  -- Behind what the device had before, `text` has been printed.
  pub record IsBuffered (tbuf : PrintfBuffer filp_write) (text : List ℕ) : Type 0 where
    pub all : contents (tbuf.device) ++ takes (words tbuf.buffer 0 tbuf.pos) ≡ before ++ takes text
    pub count : (tbuf.total_count + tbuf.pos) % 2 ^ 32 ≡ length text % 2 ^ 32
    pub word : tbuf.total_count < 2 ^ 32
    pub size : tbuf.limit ≡ buffer_siz
    pub fits : tbuf.pos ≤ buffer_siz

  -- Nothing is buffered at position 0.
  pub drained :
      {tbuf : PrintfBuffer filp_write} {text : List ℕ}
      → tbuf.pos ≡ 0
      → IsBuffered tbuf text
      → contents (tbuf.device) ≡ before ++ takes text
  unfolding words
  drained {tbuf} empty v =
      sym (append-nil (contents tbuf.device))
      ∙ ap (λ l. contents tbuf.device ++ l) (sym w.nothing)
      ∙ ap (λ p. contents tbuf.device ++ takes (words tbuf.buffer 0 p)) (sym empty)
      ∙ v.all

  -- What is taken of a text and of more words behind it.
  behind : (text xs : List ℕ) → (before ++ takes text) ++ takes xs ≡ before ++ takes (text ++ xs)
  behind text xs =
      append_assoc before (takes text) (takes xs) ∙ ap (λ l. before ++ l) (sym (w.joins text xs))

  -- More words behind those in a buffer.
  more_buffered :
      {tbuf : PrintfBuffer filp_write} {text : List ℕ} (xs : List ℕ)
      → IsBuffered tbuf text
      → contents tbuf.device ++ takes (words tbuf.buffer 0 tbuf.pos ++ xs)
        ≡ before ++ takes (text ++ xs)
  more_buffered {tbuf} {text} xs v =
      ap (λ l. contents tbuf.device ++ l) (w.joins (words tbuf.buffer 0 tbuf.pos) xs)
      ∙ sym (append_assoc (contents tbuf.device) (takes (words tbuf.buffer 0 tbuf.pos)) (takes xs))
      ∙ ap (λ l. l ++ takes xs) v.all
      ∙ behind text xs

  -- Words that are written past an empty buffer.
  flush_buffer_data-IsBuffered :
      {tbuf : PrintfBuffer filp_write} {text : List ℕ} (xs : List ℕ)
      → tbuf.pos ≡ 0
      → IsBuffered tbuf text
      → IsBuffered (flush_buffer_data filp_write tbuf xs) (text ++ xs)
  unfolding flush_buffer_data words
  flush_buffer_data-IsBuffered {tbuf} {text} xs empty v = record {
    all = rw empty (
        ap (λ l. contents ((filp_write xs tbuf.device).1) ++ l) w.nothing
        ∙ append-nil (contents ((filp_write xs tbuf.device).1))
        ∙ w.writes xs tbuf.device
        ∙ ap (λ l. l ++ takes xs) (drained empty v)
        ∙ behind text xs);
    count = omega (arith, v.count, empty, w.counts xs tbuf.device, length-append text xs);
    word = omega arith;
    size = v.size;
    fits = v.fits;
  }

  flushed :
      {tbuf : PrintfBuffer filp_write} {text : List ℕ}
      → IsBuffered tbuf text
      → IsBuffered
          (record (flush_buffer_data filp_write tbuf (words tbuf.buffer 0 tbuf.pos)) { pos = 0 })
          text
  unfolding flush_buffer_data words
  flushed {tbuf} {text} v =
      let xs = words tbuf.buffer 0 tbuf.pos in
      record {
        all =
            ap (λ l. contents ((filp_write xs tbuf.device).1) ++ l) w.nothing
            ∙ append-nil (contents ((filp_write xs tbuf.device).1))
            ∙ w.writes xs tbuf.device
            ∙ v.all;
        count =
            omega (arith, v.count, w.counts xs tbuf.device, length-words tbuf.buffer 0 tbuf.pos);
        word = omega arith;
        size = v.size;
        fits = omega arith;
      }

  pub flush_buffer-IsBuffered :
      {tbuf : PrintfBuffer filp_write} {text : List ℕ}
      → IsBuffered tbuf text
      → IsBuffered (flush_buffer filp_write tbuf) text × ((flush_buffer filp_write tbuf).pos ≡ 0)
  unfolding flush_buffer
  flush_buffer-IsBuffered {tbuf} {text} v = elim (Bool-cases (ltb 0 tbuf.pos)) [
    | inl e ↦ rw e (flushed v, refl)
    | inr e ↦ rw e (v, ground arith)
  ]

  -- A buffer with room for `n` words: flushed if the test of the code says so.
  pub with_room :
      {tbuf : PrintfBuffer filp_write} {text : List ℕ} (n : ℕ)
      → n ≤ buffer_siz
      → IsBuffered tbuf text
      → (let tbuf' = if leb tbuf.limit (n + tbuf.pos) then flush_buffer filp_write tbuf else tbuf in
          IsBuffered tbuf' text × (tbuf'.pos + n ≤ buffer_siz))
  with_room {tbuf} {text} n le v = elim (Bool-cases (leb tbuf.limit (n + tbuf.pos))) [
    | inl e ↦ let (v', empty) = flush_buffer-IsBuffered v in rw e (v', omega (arith, empty))
    | inr e ↦ rw e (v, ground (arith, v.size))
  ]

  -- One more word in a buffer with room for it.
  store-IsBuffered :
      {tbuf : PrintfBuffer filp_write} {text : List ℕ} (c : ℕ)
      → tbuf.pos < buffer_siz
      → IsBuffered tbuf text
      → IsBuffered (store filp_write tbuf c) (text ++ (c ∷ []))
  store-IsBuffered {tbuf} {text} c room v = record {
    all =
        ap (λ l. contents tbuf.device ++ takes l) (words-store tbuf.buffer tbuf.pos c)
        ∙ more_buffered (c ∷ []) v;
    count = omega (arith, v.count, length-append text (c ∷ []));
    word = v.word;
    size = v.size;
    fits = omega arith;
  }

  -- `n` words copied to a buffer with room for them.
  copy_to-IsBuffered :
      {tbuf : PrintfBuffer filp_write} {text : List ℕ} (mem : Memory) (s n : ℕ)
      → tbuf.pos + n ≤ buffer_siz
      → IsBuffered tbuf text
      → IsBuffered (copy_to filp_write tbuf mem s n) (text ++ words mem s n)
  copy_to-IsBuffered {tbuf} {text} mem s n room v = record {
    all =
        ap (λ l. contents tbuf.device ++ takes l) (words-copy_in n tbuf.pos s mem tbuf.buffer)
        ∙ more_buffered (words mem s n) v;
    count = omega (arith, v.count, length-append text (words mem s n), length-words mem s n);
    word = v.word;
    size = v.size;
    fits = room;
  }

  pub add_char_to_buffer-IsBuffered :
      {tbuf : PrintfBuffer filp_write} {text : List ℕ} (c : ℕ)
      → IsBuffered tbuf text
      → IsBuffered (add_char_to_buffer filp_write tbuf c) (text ++ (c ∷ []))
  unfolding add_char_to_buffer
  add_char_to_buffer-IsBuffered {tbuf} {text} c v = elim (Bool-cases (leb tbuf.limit tbuf.pos)) [
    | inl e ↦
        let (v', empty) = flush_buffer-IsBuffered v in
        rw e (store-IsBuffered c (omega (arith, empty)) v')
    | inr e ↦ rw e (store-IsBuffered c (ground (arith, v.size)) v)
  ]

  pub append_buffer-IsBuffered :
      {tbuf : PrintfBuffer filp_write} {text : List ℕ} (mem : Memory) (s n : ℕ)
      → IsBuffered tbuf text
      → IsBuffered (append_buffer filp_write tbuf mem s n) (text ++ words mem s n)
  unfolding append_buffer
  append_buffer-IsBuffered {tbuf} {text} mem s n v = elim (Bool-cases (ltb tbuf.limit n)) [
    | inl e ↦
        let (v', empty) = flush_buffer-IsBuffered v in
        rw e (flush_buffer_data-IsBuffered (words mem s n) empty v')
    | inr e ↦
        let (v', room) = with_room n (ground (arith, v.size)) v in
        rw e (copy_to-IsBuffered mem s n room v')
  ]

  padding_loop-IsBuffered :
      (len token : ℕ) {tbuf : PrintfBuffer filp_write} {text : List ℕ}
      → IsBuffered tbuf text
      → IsBuffered (padding_loop filp_write len tbuf token) (text ++ replicate len token)
  unfolding padding_loop
  padding_loop-IsBuffered zero token {tbuf} {text} v =
      subst (IsBuffered tbuf) (sym (append-nil text)) v
  padding_loop-IsBuffered (suc len) token {tbuf} {text} v =
      subst (IsBuffered _) (append_assoc text (token ∷ []) (replicate len token))
        (padding_loop-IsBuffered len token (add_char_to_buffer-IsBuffered token v))

  pub fill_padding-IsBuffered :
      {tbuf : PrintfBuffer filp_write} {text : List ℕ} (token len : ℕ)
      → IsBuffered tbuf text
      → IsBuffered (fill_padding filp_write tbuf token len) (text ++ replicate len token)
  unfolding fill_padding
  fill_padding-IsBuffered {tbuf} {text} token len v =
      elim (Bool-cases (leb tbuf.limit (len + tbuf.pos))) [
        | inl e ↦ rw e (padding_loop-IsBuffered len token ((flush_buffer-IsBuffered v).0))
        | inr e ↦ rw e (padding_loop-IsBuffered len token v)
      ]
