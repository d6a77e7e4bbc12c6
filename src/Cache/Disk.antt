-- ===== src/Cache/Disk.antt =====
-- The block device: a block is read and written whole.
use winix.Prelude.{
  ℕ, zero, suc, ◌+◌, ◌-◌, ◌*◌, ◌<◌, ◌≡◌, refl, ◌∙◌, ap, true, false, ◌==◌, if◌then◌else◌, arith,
  Bool-cases, inl, inr, ◌⊎◌,
}
use winix.Ready.{update}
use winix.Strings.{Memory}
use winix.Strings.Copy.{inside}
use winix.Cache.{block_size, copy_words, transfer_len, offset_of, blk_dev_io_read, blk_dev_io_write}

-- The words that were copied, and the others.
copy_words-inside :
    (n to from : ℕ) (source target : Memory) (a : ℕ)
    → copy_words n to from source target a
      ≡ (if inside to n a then source (from + (a - to)) else target a)
unfolding copy_words
copy_words-inside zero to from source target a =
    let e : inside to 0 a ≡ false = ground arith in rw e refl
copy_words-inside (suc n) to from source target a =
    copy_words-inside n (to + 1) (from + 1) source (update target to (source from)) a
    ∙ step (Bool-cases (inside (to + 1) n a)) (Bool-cases (a == to))
  where
    step :
        (inside (to + 1) n a ≡ true) ⊎ (inside (to + 1) n a ≡ false)
        → ((a == to) ≡ true) ⊎ ((a == to) ≡ false)
        → (if inside (to + 1) n a
            then source (from + 1 + (a - (to + 1)))
            else update target to (source from) a)
          ≡ (if inside to (suc n) a then source (from + (a - to)) else target a)
    step (inl e) is =
        let within : inside to (suc n) a ≡ true = ground arith in
        let same : from + 1 + (a - (to + 1)) ≡ from + (a - to) = ground arith in
        rw (e, within, same) refl
    step (inr e) (inl is) =
        let within : inside to (suc n) a ≡ true = ground arith in
        let same : from + (a - to) ≡ from = ground arith in rw (e, is, within, same) refl
    step (inr e) (inr other) =
        let without : inside to (suc n) a ≡ false = ground arith in rw (e, other, without) refl

-- The blocks of the disk.
abbrev pub nr_blocks : ℕ
nr_blocks = 50

-- A block lies on the disk.
pub offset_of-block : (b : ℕ) → b < nr_blocks → offset_of b ≡ b * block_size
offset_of-block b lt = omega arith

transfer_len-block : (b : ℕ) → b < nr_blocks → transfer_len (b * block_size) block_size ≡ block_size
transfer_len-block b lt = ground arith

pub blk_dev_io_read-block :
    (b : ℕ) (disk buf : Memory)
    → b < nr_blocks
    → (let (ret, words) = blk_dev_io_read disk buf (b * block_size) block_size in
        (ret ≡ block_size) × ((i : ℕ) → i < block_size → words i ≡ disk (b * block_size + i)))
unfolding blk_dev_io_read
blk_dev_io_read-block b disk buf lt = rw (transfer_len-block b lt) (
  refl,
  λ i inner.
      let within : inside 0 block_size i ≡ true = ground arith in
      copy_words-inside block_size 0 (b * block_size) disk buf i
      ∙ rw within (ap disk (omega arith)),
)

pub blk_dev_io_write-block :
    (b : ℕ) (disk buf : Memory)
    → b < nr_blocks
    → (let (ret, words) = blk_dev_io_write disk buf (b * block_size) block_size in
        (ret ≡ block_size)
        × ((a : ℕ)
            → words a ≡ (
                if inside (b * block_size) block_size a then buf (a - b * block_size) else disk a)))
unfolding blk_dev_io_write
blk_dev_io_write-block b disk buf lt = rw (transfer_len-block b lt) (
  refl,
  λ a.
      let same : 0 + (a - b * block_size) ≡ a - b * block_size = omega arith in
      rw same at (copy_words-inside block_size (b * block_size) 0 buf disk a),
)
