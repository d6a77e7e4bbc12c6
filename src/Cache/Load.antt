-- ===== src/Cache/Load.antt =====
-- `load`: a buffer of a new block, and what the cache stands for then.
use winix.Prelude.{
  ℕ, ◌+◌, ◌*◌, ◌<◌, ◌≡◌, refl, ◌∙◌, sym, ap, true, false, some, ◌==◌, arith, Bool-cases, ==_iff,
  inl, inr,
}
use winix.Ready.{Ptr, null, update}
use winix.Cache.{Cache, block_size, transfer, block_io, reading, load, retagged, reused}
use winix.Cache.Disk.{nr_blocks, offset_of-block, blk_dev_io_read-block}
use winix.Cache.Written.{written, write_back-written}
use winix.Cache.View.{
  is_buffer, content, IsTable, HasDevices, IsClean, located, cached, uncached, content-cached,
  content-uncached,
}

-- `c'` is `c` with block `b` read to the buffer `p`.
pub record IsLoaded (c : Cache) (p : Ptr) (b : ℕ) (c' : Cache) : Type 0 where
  pub next :
      c'.lru ≡ record (c.lru) { next = update c.lru.next p null; prev = update c.lru.prev p null }
  pub disk : c'.disk ≡ c.disk
  pub blocknr : c'.b_blocknr ≡ update c.b_blocknr p b
  pub idle : c'.b_dirt p ≡ false
  pub device : (c'.b_dev p == null) ≡ false
  pub devices : (q : Ptr) → (q == p) ≡ false → c'.b_dev q ≡ c.b_dev q
  pub others : (q : Ptr) → (q == p) ≡ false → (c'.block q ≡ c.block q) × (c'.b_dirt q ≡ c.b_dirt q)
  pub here : (i : ℕ) → i < block_size → c'.block p i ≡ c.disk (b * block_size + i)

transfer-reading :
    (c : Cache) (p : Ptr) (b : ℕ)
    → c.b_blocknr p ≡ b
    → b < nr_blocks
    → (let (ret, c') = transfer c p reading in
        (ret ≡ block_size)
        × ((i : ℕ) → i < block_size → c'.block p i ≡ c.disk (b * block_size + i)))
unfolding transfer
transfer-reading c p b at lt =
    let self : (p == p) ≡ true = ground arith in
    rw (at, offset_of-block b lt, self) (blk_dev_io_read-block b c.disk (c.block p) lt)

-- What a buffer is used for another block leaves, if there is a device.
abbrev reread : Cache → Ptr → (b : ℕ) → ℕ × Cache
reread c p b =
    let c1 = written c p in transfer (record c1 { b_blocknr = update c1.b_blocknr p b }) p reading

reused-reread :
    (c : Cache) (p : Ptr) (b : ℕ) (dev : Ptr)
    → (dev == null) ≡ false
    → reused c p b dev ≡ some (reread c p b)
unfolding block_io
reused-reread c p b dev there = rw (write_back-written c p dev (λ _. there), there) refl

reread-block_size :
    (c : Cache) (p : Ptr) (b : ℕ)
    → b < nr_blocks
    → (let (ret, c') = reread c p b in
        (ret ≡ block_size)
        × ((i : ℕ) → i < block_size → c'.block p i ≡ (written c p).disk (b * block_size + i)))
reread-block_size c p b lt =
    let self : (p == p) ≡ true = ground arith in
    let c1 = written c p in
    transfer-reading (record c1 { b_blocknr = update c1.b_blocknr p b }) p b (rw self refl) lt

pub load-IsLoaded :
    (c : Cache) (p : Ptr) (b : ℕ) (dev : Ptr)
    → b < nr_blocks
    → (dev == null) ≡ false
    → (c' : Cache) × (load c p b dev ≡ some (p, c')) × IsLoaded (written c p) p b c'
unfolding load transfer
load-IsLoaded c p b dev lt there =
    let self : (p == p) ≡ true = ground arith in
    let (all, words) = reread-block_size c p b lt in
    (
      retagged ((reread c p b).1) p dev,
      rw (reused-reread c p b dev there, all) refl,
      record {
        next = refl;
        disk = refl;
        blocknr = refl;
        idle = rw self refl;
        device = rw self there;
        devices = λ q other. rw other refl;
        others = λ q other. (rw other refl, rw other refl);
        here = words;
      },
    )

-- A block that is in no buffer.
abbrev pub Absent : Cache → ℕ → Type 0
Absent c b = (p : Ptr) → is_buffer p ≡ true → (c.b_blocknr p == b) ≡ false

module _ (c : Cache) (p : Ptr) (b : ℕ) (c' : Cache) (t : IsTable c) (is : is_buffer p ≡ true)
    (lt : b < nr_blocks) (positive : 0 < b) (out : Absent c b) (l : IsLoaded c p b c') where
  pub blocknr_here : c'.b_blocknr p ≡ b
  blocknr_here =
      ap (λ f. f p) l.blocknr ∙ (let self : (p == p) ≡ true = ground arith in rw self refl)

  blocknr_other : (q : Ptr) → (q == p) ≡ false → c'.b_blocknr q ≡ c.b_blocknr q
  blocknr_other q other = ap (λ f. f q) l.blocknr ∙ rw other refl

  pub IsLoaded-IsTable : IsTable c'
  IsLoaded-IsTable = record {
    on_disk = λ q is'. elim (Bool-cases (q == p)) [
      | inl e ↦ let same : q ≡ p = (==_iff _ _).0 e in rw (same, blocknr_here) lt
      | inr e ↦ rw (blocknr_other q e) (t.on_disk q is')
    ];
    unique = λ q r is' is'' same used. elim (Bool-cases (q == p)) [
      | inl e ↦ elim (Bool-cases (r == p)) [
        | inl e' ↦ (==_iff _ _).0 e ∙ sym ((==_iff _ _).0 e')
        | inr e' ↦ absurd (
            ground (
              arith,
              out r is'',
              blocknr_other r e',
              same,
              blocknr_here,
              ap (c'.b_blocknr) ((==_iff _ _).0 e),
            ))
      ]
      | inr e ↦ elim (Bool-cases (r == p)) [
        | inl e' ↦ absurd (
            ground (
              arith,
              out q is',
              blocknr_other q e,
              same,
              blocknr_here,
              ap (c'.b_blocknr) ((==_iff _ _).0 e'),
            ))
        | inr e' ↦
            t.unique q r is' is'' (sym (blocknr_other q e) ∙ same ∙ blocknr_other r e')
              (omega (arith, used, blocknr_other q e))
      ]
    ];
  }

  pub IsLoaded-HasDevices : HasDevices c → HasDevices c'
  IsLoaded-HasDevices h = record {
    device = λ q is' why. elim (Bool-cases (q == p)) [
      | inl e ↦ let same : q ≡ p = (==_iff _ _).0 e in ap (λ r. c'.b_dev r == null) same ∙ l.device
      | inr e ↦
          ap (λ d. d == null) (l.devices q e)
          ∙ h.device q is' (elim why [
            | inl used ↦ inl (omega (arith, used, blocknr_other q e))
            | inr d ↦ inr (sym (l.others q e).1 ∙ d)
          ])
    ];
  }

  -- A block that no other buffer was of is in no buffer.
  Absent-now :
      (b' : ℕ)
      → (b' == b) ≡ false
      → ((q : Ptr) → is_buffer q ≡ true → (q == p) ≡ false → (c.b_blocknr q == b') ≡ false)
      → Absent c' b'
  Absent-now b' other others q is' = elim (Bool-cases (q == p)) [
    | inl e ↦ let same : q ≡ p = (==_iff _ _).0 e in rw (same, blocknr_here) (ground arith)
    | inr e ↦ rw (blocknr_other q e) (others q is' e)
  ]

  -- The contents stay if the old contents are on the disk.
  pub IsLoaded-content :
      IsClean c p
      → c.b_dirt p ≡ false
      → (b' i : ℕ) → 0 < b'
      → i < block_size
      → content c' b' i ≡ content c b' i
  IsLoaded-content clean idle b' i positive' inner = elim (Bool-cases (b' == b)) [
    | inl e ↦
        let same : b' ≡ b = (==_iff _ _).0 e in
        rw same (
          content-cached {c = c'} p IsLoaded-IsTable positive is blocknr_here i
          ∙ l.here i inner
          ∙ sym (content-uncached c b out i))
    | inr e ↦ elim (located c b') [
      | cached q is' at _ all ↦ elim (Bool-cases (q == p)) [
        | inl e' ↦ old e q is' at ((==_iff _ _).0 e') ∙ sym (all i)
        | inr e' ↦
            content-cached {c = c'} q IsLoaded-IsTable positive' is' (blocknr_other q e' ∙ at) i
            ∙ ap (λ f. f i) (l.others q e').0
            ∙ sym (all i)
      ]
      | uncached out' _ all ↦
          content-uncached c' b' (Absent-now b' e (λ q is' _. out' q is')) i
          ∙ ap (λ d. d (b' * block_size + i)) l.disk
          ∙ sym (all i)
    ]
  ]
    where
      old :
          (b' == b) ≡ false
          → (q : Ptr) → is_buffer q ≡ true
          → c.b_blocknr q ≡ b'
          → q ≡ p
          → content c' b' i ≡ c.block q i
      old other q is' at same =
          let at' : c.b_blocknr p ≡ b' = ap (c.b_blocknr) (sym same) ∙ at in
          let used : 0 < c.b_blocknr p = omega (arith, at', positive') in
          let single : (r : Ptr)
              → is_buffer r ≡ true
              → (r == p) ≡ false
              → (c.b_blocknr r == b') ≡ false =
            λ r is'' ne. elim (Bool-cases (c.b_blocknr r == b')) [
              | inl e ↦
                  let twin : p ≡ r = t.unique p r is is'' (at' ∙ sym ((==_iff _ _).0 e)) used in
                  absurd (ground (arith, twin, ne))
              | inr e ↦ e
            ] in
          content-uncached c' b' (Absent-now b' other single) i
          ∙ ap (λ d. d (b' * block_size + i)) l.disk
          ∙ ap (λ n. c.disk (n * block_size + i)) (sym at')
          ∙ sym (clean.agrees idle used i inner)
          ∙ ap (λ r. c.block r i) (sym same)

-- A clean buffer of another block stays one.
pub IsLoaded-others :
    (c : Cache) (p : Ptr) (b : ℕ) (c' : Cache) (q : Ptr)
    → IsLoaded c p b c'
    → (q == p) ≡ false
    → IsClean c q
    → IsClean c' q
IsLoaded-others c p b c' q l other old = record {
  agrees = λ idle positive i inner.
      let nr : c'.b_blocknr q ≡ c.b_blocknr q = ap (λ f. f q) l.blocknr ∙ rw other refl in
      ap (λ f. f i) (l.others q other).0
      ∙ old.agrees (sym (l.others q other).1 ∙ idle) (omega (arith, nr, positive)) i inner
      ∙ ap (λ d. d (c.b_blocknr q * block_size + i)) (sym l.disk)
      ∙ ap (λ n. c'.disk (n * block_size + i)) (sym nr);
}
