-- ===== src/Cache/Flush.antt =====
-- `flush_all_buffer`: the disk has what the cache stands for.
use winix.Prelude.{
  ℕ, zero, suc, ◌+◌, ◌*◌, ◌≤◌, ◌<◌, ◌≡◌, refl, ◌∙◌, sym, ap, true, false, List, ◌==◌, arith,
  Bool-cases, ==_iff, inl, inr, some,
}
use mathlib.Core.Path.{subst}
use winix.Ready.{Ptr}
use winix.Ready.Chain.{has}
use winix.Cache.{Cache, lru_len, block_size, flush_from, flush_all_buffer}
use winix.Cache.View.{
  is_buffer, content, IsTable, HasDevices, IsClean, IsCache, located, cached, uncached,
}
use winix.Cache.Written.{
  IsTable-same, written, write_back-written, IsWritten-HasDevices, written-IsWritten,
  IsWritten-content, IsWritten-IsClean, IsWritten-others,
}

-- No buffer has words that are neither on the disk nor marked as dirty.
record IsMarked (c : Cache) : Type 0 where
  table : IsTable c
  devices : HasDevices c
  clean : (p : Ptr) → is_buffer p ≡ true → IsClean c p

-- `c'` is `c` with the buffers before `t` written.
record IsFlushedTo (c : Cache) (t : ℕ) (c' : Cache) : Type 0 where
  marked : IsMarked c'
  lru : c'.lru ≡ c.lru
  kept : (b i : ℕ) → 0 < b → i < block_size → content c' b i ≡ content c b i
  done : (p : Ptr) → is_buffer p ≡ true → p < t → c'.b_dirt p ≡ false

-- One buffer more.
written-IsFlushedTo :
    {c c' : Cache} (t : ℕ)
    → is_buffer t ≡ true
    → IsFlushedTo c t c'
    → IsFlushedTo c (t + 1) (written c' t)
written-IsFlushedTo {c} {c'} t is f =
    let w = written-IsWritten c' t (f.marked.table.on_disk t is) in
    record {
      marked = record {
        table = IsTable-same c' (written c' t) w.blocknr f.marked.table;
        devices = IsWritten-HasDevices c' t (written c' t) w f.marked.devices;
        clean = λ p is'. elim (Bool-cases (p == t)) [
          | inl e ↦
              let same : p ≡ t = (==_iff _ _).0 e in
              subst (IsClean (written c' t)) (sym same)
                (IsWritten-IsClean c' t (written c' t) w (f.marked.clean t is))
          | inr e ↦
              IsWritten-others c' t (written c' t) p f.marked.table is is' e w
                (f.marked.clean p is')
        ];
      };
      lru = w.lru ∙ f.lru;
      kept = λ b i positive inner.
          IsWritten-content f.marked.table is w b i positive inner ∙ f.kept b i positive inner;
      done = λ p is' before. elim (Bool-cases (p == t)) [
        | inl e ↦ let same : p ≡ t = (==_iff _ _).0 e in ap ((written c' t).b_dirt) same ∙ w.clean
        | inr e ↦ w.others p e ∙ f.done p is' (ground arith)
      ];
    }

flush_from-IsFlushedTo :
    (n t : ℕ) {c c' : Cache}
    → 0 < t
    → t + n ≤ lru_len + 1
    → IsFlushedTo c t c'
    → (c'' : Cache) × (flush_from n t c' ≡ some c'') × IsFlushedTo c (t + n) c''
unfolding flush_from
flush_from-IsFlushedTo zero t {c} {c'} positive le f =
    let same : t ≡ t + 0 = omega arith in (c', refl, subst (λ u. IsFlushedTo c u c') same f)
flush_from-IsFlushedTo (suc n) t {c} {c'} positive le f =
    let same : t + 1 + n ≡ t + suc n = omega arith in
    let round =
      write_back-written c' t (c'.b_dev t)
        (λ d. f.marked.devices.device t (ground arith) (inr d)) in
    let (c'', run, f') =
      flush_from-IsFlushedTo n (t + 1) (omega arith) (omega arith)
        (written-IsFlushedTo t (ground arith) f) in
    (c'', rw round run, subst (λ u. IsFlushedTo c u c'') same f')

-- The state after a flush.
pub record IsFlushed (c c' : Cache) (xs : List Ptr) : Type 0 where
  pub cache : IsCache c' xs
  pub written : (b i : ℕ) → 0 < b → i < block_size → c'.disk (b * block_size + i) ≡ content c b i
  pub kept : (b i : ℕ) → 0 < b → i < block_size → content c' b i ≡ content c b i
  pub clean : (p : Ptr) → is_buffer p ≡ true → c'.b_dirt p ≡ false

-- If the state is well formed, in which a dirty buffer has a device, and no buffer is held,
-- flush_all_buffer returns and leaves every buffer clean and
-- every block other than 0 on the disk as the cache stood for it; the state stays well formed, and
-- the cache stands for the same contents of all blocks other than 0.
pub flush_all_buffer-IsFlushed :
    (c : Cache) (xs : List Ptr)
    → IsCache c xs
    → ((p : Ptr) → is_buffer p ≡ true → has p xs ≡ true)
    → (c' : Cache) × (flush_all_buffer c ≡ some c') × IsFlushed c c' xs
unfolding flush_all_buffer
flush_all_buffer-IsFlushed c xs v free =
    let start : IsFlushedTo c 1 c = record {
      marked = record {
        table = v.table;
        devices = v.devices;
        clean = λ p is. v.clean p (free p is);
      };
      lru = refl;
      kept = λ _ _ _ _. refl;
      done = λ p is lt. absurd (ground arith);
    } in
    let (c', run, f) = flush_from-IsFlushedTo lru_len 1 (omega arith) (omega arith) start in
    let clean : (p : Ptr) → is_buffer p ≡ true → c'.b_dirt p ≡ false =
      λ p is. f.done p is (ground arith) in
    (
      c',
      run,
      record {
        cache = record {
          lru = rw f.lru v.lru;
          table = f.marked.table;
          devices = f.marked.devices;
          buffers = v.buffers;
          clean = λ p m. f.marked.clean p (v.buffers p m);
        };
        written = λ b i positive inner. elim (located c' b) [
          | cached p is at _ all ↦
              ap (λ n. c'.disk (n * block_size + i)) (sym at)
              ∙ sym
                  ((f.marked.clean p is).agrees (clean p is) (omega (arith, at, positive)) i inner)
              ∙ sym (all i)
              ∙ f.kept b i positive inner
          | uncached _ _ all ↦ sym (all i) ∙ f.kept b i positive inner
        ];
        kept = f.kept;
        clean = clean;
      },
    )
