-- ===== src/Cache/View.antt =====
-- What the cache stands for: the contents of the blocks, in a buffer or on the disk. Block 0 holds
-- the superblock and is not read through the cache; a buffer of block 0 is one that is not in use.
use winix.Prelude.{
  ℕ, zero, suc, ◌+◌, ◌*◌, ◌≤◌, ◌<◌, ◌≡◌, refl, ◌∙◌, sym, ap, Bool, true, false, ◌&&◌, List, leb,
  ltb, ◌==◌, if◌then◌else◌, arith, Bool-cases, ==_iff, inl, inr, ◌⊎◌,
}
use winix.Ready.{Ptr, null}
use winix.Ready.Chain.{has}
use winix.Cache.{Cache, lru_len, block_size, find_buffer}
use winix.Cache.Chain.{IsLru}
use winix.Cache.Disk.{nr_blocks}

-- A buffer of `buf_table`.
abbrev pub is_buffer : Ptr → Bool
is_buffer p = ltb 0 p && leb p lru_len

-- The word `i` of block `b`.
unfoldable pub content : Cache → (b i : ℕ) → ℕ
content c b i =
    let p = find_buffer lru_len 1 c b in
    if p == null then c.disk (b * block_size + i) else c.block p i

-- The buffers are of blocks of the disk, no two of them of the same one.
pub record IsTable (c : Cache) : Type 0 where
  pub on_disk : (p : Ptr) → is_buffer p ≡ true → c.b_blocknr p < nr_blocks
  pub unique :
      (p q : Ptr)
      → is_buffer p ≡ true
      → is_buffer q ≡ true
      → c.b_blocknr p ≡ c.b_blocknr q
      → 0 < c.b_blocknr p
      → p ≡ q

-- A clean buffer has what is on the disk.
pub record IsClean (c : Cache) (p : Ptr) : Type 0 where
  pub agrees :
      c.b_dirt p ≡ false
      → 0 < c.b_blocknr p
      → (i : ℕ) → i < block_size
      → c.block p i ≡ c.disk (c.b_blocknr p * block_size + i)

-- A buffer that is dirty, or of a block other than 0, has a device.
pub record HasDevices (c : Cache) : Type 0 where
  pub device :
      (p : Ptr)
      → is_buffer p ≡ true
      → (0 < c.b_blocknr p) ⊎ (c.b_dirt p ≡ true)
      → (c.b_dev p == null) ≡ false

-- The buffers that are not held are on the list, and the clean ones of them agree with the disk.
pub record IsCache (c : Cache) (xs : List Ptr) : Type 0 where
  pub lru : IsLru c.lru xs
  pub table : IsTable c
  pub devices : HasDevices c
  pub buffers : (p : Ptr) → has p xs ≡ true → is_buffer p ≡ true
  pub clean : (p : Ptr) → has p xs ≡ true → IsClean c p

-- The search of a buffer: it is found, or no buffer is of the block.
find_from :
    (n t : ℕ) (c : Cache) (b : ℕ)
    → 0 < t
    → (let p = find_buffer n t c b in
        ((p == null) ≡ false) × (t ≤ p) × (p < t + n) × (c.b_blocknr p ≡ b))
      ⊎ ((find_buffer n t c b ≡ null)
          × ((p : Ptr) → t ≤ p → p < t + n → (c.b_blocknr p == b) ≡ false))
unfolding find_buffer
find_from zero t c b positive = inr (refl, λ p le lt. absurd (omega arith))
find_from (suc n) t c b positive = elim (Bool-cases (c.b_blocknr t == b)) [
  | inl e ↦ rw e (inl (ground arith, omega arith, omega arith, (==_iff _ _).0 e))
  | inr e ↦ elim (find_from n (t + 1) c b (omega arith)) [
    | inl (ne, le, lt, at) ↦ rw e (inl (ne, omega arith, omega arith, at))
    | inr (at, others) ↦ rw e (
        inr (
          at,
          λ p le lt. elim (Bool-cases (p == t)) [
            | inl is ↦ let same : p ≡ t = (==_iff _ _).0 is in rw same e
            | inr other ↦ others p (ground arith) (omega arith)
          ],
        ))
  ]
]

-- Where a block is.
pub data Located (c : Cache) (b : ℕ) : Type 0 where
  cached :
      (p : Ptr)
      → is_buffer p ≡ true
      → c.b_blocknr p ≡ b
      → find_buffer lru_len 1 c b ≡ p
      → ((i : ℕ) → content c b i ≡ c.block p i)
      → Located c b
  uncached :
      ((p : Ptr) → is_buffer p ≡ true → (c.b_blocknr p == b) ≡ false)
      → find_buffer lru_len 1 c b ≡ null
      → ((i : ℕ) → content c b i ≡ c.disk (b * block_size + i))
      → Located c b

pub located : (c : Cache) (b : ℕ) → Located c b
unfolding content
located c b = elim (find_from lru_len 1 c b (omega arith)) [
  | inl (ne, le, lt, at) ↦
      cached (find_buffer lru_len 1 c b) (ground arith) at refl (λ i. rw ne refl)
  | inr (at, others) ↦
      uncached (λ p is. others p (ground arith) (ground arith)) at (λ i. rw at refl)
]

-- The contents of a block that is in a buffer, and of one that is in none.
pub content-cached :
    {c : Cache} {b : ℕ} (p : Ptr)
    → IsTable c
    → 0 < b
    → is_buffer p ≡ true
    → c.b_blocknr p ≡ b
    → (i : ℕ) → content c b i ≡ c.block p i
content-cached {c} {b} p t positive is at i = elim (located c b) [
  | cached q is' at' _ all ↦
      let same : q ≡ p = t.unique q p is' is (at' ∙ sym at) (omega (arith, at')) in
      all i ∙ ap (λ r. c.block r i) same
  | uncached others _ _ ↦ absurd (ground (arith, others p is, at))
]

pub content-uncached :
    (c : Cache) (b : ℕ)
    → ((p : Ptr) → is_buffer p ≡ true → (c.b_blocknr p == b) ≡ false)
    → (i : ℕ) → content c b i ≡ c.disk (b * block_size + i)
content-uncached c b out i = elim (located c b) [
  | cached q is at _ _ ↦ absurd (ground (arith, out q is, at))
  | uncached _ _ all ↦ all i
]
