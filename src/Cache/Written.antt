-- ===== src/Cache/Written.antt =====
-- Writing a dirty buffer back changes nothing of what the cache stands for.
use winix.Prelude.{
  ℕ, ◌+◌, ◌-◌, ◌*◌, ◌<◌, ◌≡◌, refl, ◌∙◌, sym, ap, true, false, some, ◌==◌, if◌then◌else◌, arith,
  Bool-cases, ==_iff, inl, inr, ◌⊎◌,
}
use mathlib.Core.Path.{subst}
use winix.Ready.{Ptr, null}
use winix.Strings.Copy.{inside}
use winix.Cache.{Cache, block_size, transfer, block_io, writing, set_dirt, write_back}
use winix.Cache.Disk.{nr_blocks, offset_of-block, blk_dev_io_write-block}
use winix.Cache.View.{
  IsTable, HasDevices, IsClean, content, located, cached, uncached, content-cached,
  content-uncached, is_buffer,
}

-- A table with the blocks of another.
pub IsTable-same : (c c' : Cache) → c'.b_blocknr ≡ c.b_blocknr → IsTable c → IsTable c'
IsTable-same c c' same t = record { on_disk = rw same t.on_disk; unique = rw same t.unique }

-- What `write_back` to a device leaves.
abbrev pub written : Cache → Ptr → Cache
written c p = if c.b_dirt p then set_dirt ((transfer c p writing).1) p false else c

pub write_back-written :
    (c : Cache) (p dev : Ptr)
    → (c.b_dirt p ≡ true → (dev == null) ≡ false)
    → write_back c p dev ≡ some (written c p)
unfolding block_io
write_back-written c p dev there = elim (Bool-cases (c.b_dirt p)) [
  | inl e ↦ rw (e, there e) refl
  | inr e ↦ rw e refl
]

-- The devices stay if no other buffer is marked as dirty.
pub HasDevices-same :
    (c c' : Cache)
    → c'.b_blocknr ≡ c.b_blocknr
    → c'.b_dev ≡ c.b_dev
    → ((q : Ptr) → c'.b_dirt q ≡ true → (0 < c.b_blocknr q) ⊎ (c.b_dirt q ≡ true))
    → HasDevices c
    → HasDevices c'
HasDevices-same c c' same same_dev dirty h = record {
  device = λ q is why.
      ap (λ f. f q == null) same_dev
      ∙ h.device q is
          (elim why [ inl used ↦ inl (subst (λ f. 0 < f q) same used) | inr d ↦ dirty q d ]);
}

-- `c'` is `c` with the buffer `p` written to the disk.
pub record IsWritten (c : Cache) (p : Ptr) (c' : Cache) : Type 0 where
  pub lru : c'.lru ≡ c.lru
  pub block : c'.block ≡ c.block
  pub blocknr : c'.b_blocknr ≡ c.b_blocknr
  pub dev : c'.b_dev ≡ c.b_dev
  pub clean : c'.b_dirt p ≡ false
  pub others : (q : Ptr) → (q == p) ≡ false → c'.b_dirt q ≡ c.b_dirt q
  pub here :
      c.b_dirt p ≡ true
      → (i : ℕ) → i < block_size
      → c'.disk (c.b_blocknr p * block_size + i) ≡ c.block p i
  pub idle : c.b_dirt p ≡ false → c'.disk ≡ c.disk
  pub elsewhere :
      (b : ℕ)
      → (c.b_blocknr p == b) ≡ false
      → (i : ℕ) → i < block_size
      → c'.disk (b * block_size + i) ≡ c.disk (b * block_size + i)

-- The disk after a buffer has been written.
pub transfer-writing :
    (c : Cache) (p : Ptr)
    → c.b_blocknr p < nr_blocks
    → (let (ret, c') = transfer c p writing in
        (ret ≡ block_size)
        × ((a : ℕ)
            → c'.disk a ≡ (
                if inside (c.b_blocknr p * block_size) block_size a
                then c.block p (a - c.b_blocknr p * block_size)
                else c.disk a)))
unfolding transfer
transfer-writing c p lt =
    rw (offset_of-block (c.b_blocknr p) lt)
      (blk_dev_io_write-block (c.b_blocknr p) c.disk (c.block p) lt)

pub written-IsWritten :
    (c : Cache) (p : Ptr) → c.b_blocknr p < nr_blocks → IsWritten c p (written c p)
unfolding transfer
written-IsWritten c p lt = elim (Bool-cases (c.b_dirt p)) [
  | inl e ↦
      let self : (p == p) ≡ true = ground arith in
      let (_, disk) = transfer-writing c p lt in
      rw e (record {
        lru = refl;
        block = refl;
        blocknr = refl;
        dev = refl;
        clean = rw self refl;
        others = λ q other. rw other refl;
        here = λ _ i inner.
            let within : inside (c.b_blocknr p * block_size) block_size
                  (c.b_blocknr p * block_size + i)
                ≡ true =
              ground arith in
            let same : c.b_blocknr p * block_size + i - c.b_blocknr p * block_size ≡ i =
              omega arith in
            disk (c.b_blocknr p * block_size + i) ∙ rw (within, same) refl;
        idle = λ clean. absurd (ground (arith, e, clean));
        elsewhere = λ b other i inner.
            let without : inside (c.b_blocknr p * block_size) block_size (b * block_size + i)
                ≡ false =
              ground arith in
            disk (b * block_size + i) ∙ rw without refl;
      })
  | inr e ↦ rw e (record {
    lru = refl;
    block = refl;
    blocknr = refl;
    dev = refl;
    clean = e;
    others = λ q other. refl;
    here = λ dirty. absurd (ground (arith, e, dirty));
    idle = λ _. refl;
    elsewhere = λ b other i inner. refl;
  })
]

-- The devices stay.
pub IsWritten-HasDevices :
    (c : Cache) (p : Ptr) (c' : Cache) → IsWritten c p c' → HasDevices c → HasDevices c'
IsWritten-HasDevices c p c' w h =
    HasDevices-same c c' w.blocknr w.dev
      (λ q d. elim (Bool-cases (q == p)) [
        | inl e ↦
            let same : q ≡ p = (==_iff _ _).0 e in
            absurd (ground (arith, ap (c'.b_dirt) same, w.clean, d))
        | inr e ↦ inr (sym (w.others q e) ∙ d)
      ])
      h

-- The contents stay.
pub IsWritten-content :
    {c : Cache} {p : Ptr} {c' : Cache}
    → IsTable c
    → is_buffer p ≡ true
    → IsWritten c p c'
    → (b i : ℕ) → 0 < b
    → i < block_size
    → content c' b i ≡ content c b i
IsWritten-content {c} {p} {c'} t is w b i positive inner = elim (located c b) [
  | cached q is' at _ all ↦
      content-cached {c = c'} q (IsTable-same c c' w.blocknr t) positive is'
        (ap (λ f. f q) w.blocknr ∙ at) i
      ∙ ap (λ f. f q i) w.block
      ∙ sym (all i)
  | uncached out _ all ↦
      content-uncached c' b (λ q is'. rw w.blocknr (out q is')) i
      ∙ w.elsewhere b (out p is) i inner
      ∙ sym (all i)
]

-- The word of the disk that belongs to word `i` of a buffer.
abbrev pub word_of : Cache → Ptr → ℕ → ℕ
word_of c p i = c.disk (c.b_blocknr p * block_size + i)

-- The buffer agrees with the disk if it did or was dirty, and the others do if they did.
pub IsWritten-IsClean :
    (c : Cache) (p : Ptr) (c' : Cache) → IsWritten c p c' → IsClean c p → IsClean c' p
IsWritten-IsClean c p c' w old = record {
  agrees = λ _ positive i inner.
      ap (λ f. f p i) w.block
      ∙ step positive i inner (Bool-cases (c.b_dirt p))
      ∙ ap (λ f. c'.disk (f p * block_size + i)) (sym w.blocknr);
}
  where
    step :
        0 < c'.b_blocknr p
        → (i : ℕ) → i < block_size
        → (c.b_dirt p ≡ true) ⊎ (c.b_dirt p ≡ false)
        → c.block p i ≡ c'.disk (c.b_blocknr p * block_size + i)
    step positive i inner (inl dirty) = sym (w.here dirty i inner)
    step positive i inner (inr idle) =
        old.agrees idle (subst (λ f. 0 < f p) w.blocknr positive) i inner
        ∙ ap (λ d. d (c.b_blocknr p * block_size + i)) (sym (w.idle idle))

pub IsWritten-others :
    (c : Cache) (p : Ptr) (c' : Cache) (q : Ptr)
    → IsTable c
    → is_buffer p ≡ true
    → is_buffer q ≡ true
    → (q == p) ≡ false
    → IsWritten c p c'
    → IsClean c q
    → IsClean c' q
IsWritten-others c p c' q t is is' other w old = record {
  agrees = λ idle positive i inner.
      let used : 0 < c.b_blocknr q = subst (λ f. 0 < f q) w.blocknr positive in
      let apart : (c.b_blocknr p == c.b_blocknr q) ≡ false = distinct used in
      ap (λ f. f q i) w.block
      ∙ old.agrees (sym (w.others q other) ∙ idle) used i inner
      ∙ sym (w.elsewhere (c.b_blocknr q) apart i inner)
      ∙ ap (λ f. c'.disk (f q * block_size + i)) (sym w.blocknr);
}
  where
    distinct : 0 < c.b_blocknr q → (c.b_blocknr p == c.b_blocknr q) ≡ false
    distinct used = elim (Bool-cases (c.b_blocknr p == c.b_blocknr q)) [
      | inl e ↦
          let same : q ≡ p = t.unique q p is' is (sym ((==_iff _ _).0 e)) used in
          absurd (ground (arith, same, other))
      | inr e ↦ e
    ]
