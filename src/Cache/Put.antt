-- ===== src/Cache/Put.antt =====
-- `put_block_buffer_dirt`: what the holder of a buffer has written to it becomes the contents of
-- the block.
use mathlib.Core.Path.{subst}
use winix.Prelude.{
  ℕ, ◌-◌, ◌<◌, ◌≡◌, refl, ◌∙◌, sym, ap, true, false, Option, none, some, List, [], ◌∷◌, ◌++◌, ◌==◌,
  arith, Bool-cases, ==_iff, inl, inr, ◌⊎◌,
}
use winix.Errno.{Errno, ok}
use winix.Ready.{Ptr, null, update}
use winix.Ready.Chain.{has, has-append}
use winix.Ready.Remove.{erase, erase_here, erase_there}
use winix.Cache.{
  Cache, Lru, block_size, set_dirt, enqueue_buf, put_block_buffer, put_block_buffer_dirt,
  get_block_buffer,
}
use winix.Cache.Chain.{enqueue_buf-IsLru}
use winix.Cache.Disk.{nr_blocks}
use winix.Cache.View.{
  is_buffer, content, IsTable, IsCache, located, cached, uncached, content-cached, content-uncached,
}
use winix.Cache.Written.{IsTable-same, HasDevices-same}
use winix.Cache.Get.{IsGot, get_block_buffer-IsGot}

-- The holder of the buffer replaces its words.
abbrev pub with_words : Cache → Ptr → (ℕ → ℕ) → Cache
with_words c p words = record c { block = update c.block p words }

-- The state after the buffer is put on the list.
abbrev put_on : Cache → Ptr → Lru → Cache
put_on c p l = record c { lru = l; b_count = update c.b_count p (c.b_count p - 1) }

put_block_buffer-takes :
    (c : Cache) (p : Ptr) (l : Lru)
    → enqueue_buf c.lru p ≡ some l
    → put_block_buffer c p ≡ some (ok, put_on c p l)
unfolding put_block_buffer
put_block_buffer-takes c p l e = rw e refl

on_longer :
    (q p : Ptr) (xs : List Ptr)
    → has q (xs ++ p ∷ []) ≡ true
    → (has q xs ≡ true) ⊎ ((q == p) ≡ true)
unfolding has
on_longer q p xs m = elim (Bool-cases (has q xs)) [
  | inl e ↦ inl e
  | inr e ↦ inr (ground (arith, has-append q xs (p ∷ []), m, e))
]

on_shorter :
    (q p : Ptr) (xs : List Ptr) → has q (xs ++ p ∷ []) ≡ true → (q == p) ≡ false → has q xs ≡ true
on_shorter q p xs m other = elim (on_longer q p xs m) [
  | inl m' ↦ m'
  | inr e ↦ absurd (ground (arith, e, other))
]

-- What `put_block_buffer_dirt` leaves: the state `c'` stands for `words` as block `b`.
pub record IsStored (c : Cache) (b : ℕ) (words : ℕ → ℕ) (c' : Cache) (xs : List Ptr) : Type 0 where
  pub cache : IsCache c' xs
  pub here : (i : ℕ) → i < block_size → content c' b i ≡ words i
  pub elsewhere :
      (b' i : ℕ) → 0 < b' → i < block_size → (b' == b) ≡ false → content c' b' i ≡ content c b' i

-- With another buffer on the list, put_block_buffer_dirt of a buffer that is held and to which
-- `words` were written puts it at the front of the list; the state stays well formed, and the cache
-- stands for `words` as the block of the buffer, and the same contents of all others.
pub put_block_buffer_dirt-IsStored :
    (c : Cache) (p x : Ptr) (xs : List Ptr) (words : ℕ → ℕ)
    → IsCache c (x ∷ xs)
    → is_buffer p ≡ true
    → has p (x ∷ xs) ≡ false
    → 0 < c.b_blocknr p
    → (c' : Cache) × (put_block_buffer_dirt (with_words c p words) p ≡ some (ok, c'))
      × IsStored c (c.b_blocknr p) words c' (x ∷ xs ++ p ∷ [])
unfolding put_block_buffer_dirt
put_block_buffer_dirt-IsStored c p x xs words v is held positive =
    let b = c.b_blocknr p in
    let (l, enqueued, lru) = enqueue_buf-IsLru p x xs v.lru (ground arith) held in
    let marked = set_dirt (with_words c p words) p true in
    let c' = put_on marked p l in
    let t' : IsTable c' = IsTable-same c c' refl v.table in
    let self : (p == p) ≡ true = ground arith in
    let marked_devices : (q : Ptr)
        → marked.b_dirt q ≡ true
        → (0 < c.b_blocknr q) ⊎ (c.b_dirt q ≡ true) =
      λ q d. elim (Bool-cases (q == p)) [
        | inl e ↦ let same : q ≡ p = (==_iff _ _).0 e in inl (rw same positive)
        | inr e ↦ inr (rw e at d)
      ] in
    (
      c',
      put_block_buffer-takes marked p l enqueued,
      record {
        cache = record {
          lru = lru;
          table = t';
          devices = HasDevices-same c c' refl refl marked_devices v.devices;
          buffers = λ q m. elim (on_longer q p (x ∷ xs) m) [
            | inl m' ↦ v.buffers q m'
            | inr e ↦ let same : q ≡ p = (==_iff _ _).0 e in rw same is
          ];
          clean = λ q m. record {
            agrees = λ idle positive' i inner. elim (Bool-cases (q == p)) [
              | inl e ↦ absurd (ground (arith, (rw e at idle)))
              | inr e ↦ rw e (
                  (v.clean q (on_shorter q p (x ∷ xs) m e)).agrees (rw e at idle) positive' i inner)
            ];
          };
        };
        here = λ i inner. content-cached {c = c'} p t' positive is refl i ∙ rw self refl;
        elsewhere = λ b' i positive' inner other. elim (located c b') [
          | cached q is' at _ all ↦
              let ne : (q == p) ≡ false = elim (Bool-cases (q == p)) [
                | inl e ↦ absurd (ground (arith, ap (c.b_blocknr) ((==_iff q p).0 e), at, other))
                | inr e ↦ e
              ] in
              content-cached {c = c'} q t' positive' is' at i ∙ rw ne (sym (all i))
          | uncached out _ all ↦ content-uncached c' b' out i ∙ sym (all i)
        ];
      },
    )

-- A block is written: its buffer is got, its words are replaced, and it is put back.
abbrev put_answer : (ℕ → ℕ) → Option (Ptr × Cache) → Option (Errno × Cache)
put_answer words none = none
put_answer words (some (p, c)) = put_block_buffer_dirt (with_words c p words) p

pub write_block : Cache → (b : ℕ) → (dev : Ptr) → (ℕ → ℕ) → Option (Errno × Cache)
write_block c b dev words = put_answer words (get_block_buffer c b dev)

-- The list keeps a buffer when one of two is taken off.
erase_two :
    (p x y : Ptr) (xs : List Ptr) → (z : Ptr) × (zs : List Ptr) × (erase p (x ∷ y ∷ xs) ≡ z ∷ zs)
erase_two p x y xs = elim (Bool-cases (x == p)) [
  | inl e ↦ (y, xs, erase_here p x (y ∷ xs) e)
  | inr e ↦ (x, erase p (y ∷ xs), erase_there p x (y ∷ xs) e)
]

-- What is stored after a block was got is stored before.
IsStored-IsGot :
    {c c1 c2 : Cache} {b : ℕ} {words : ℕ → ℕ} {p : Ptr} {xs ys : List Ptr}
    → IsGot c b p c1 xs
    → IsStored c1 (c1.b_blocknr p) words c2 ys
    → IsStored c b words c2 ys
IsStored-IsGot {c1} {c2} {b} {words} {p} {ys} got st =
    let at : IsStored c1 b words c2 ys = subst (λ n. IsStored c1 n words c2 ys) got.blocknr st in
    record {
      cache = at.cache;
      here = at.here;
      elsewhere = λ b' i positive inner other.
          at.elsewhere b' i positive inner other ∙ got.kept b' i positive inner;
    }

-- With at least two buffers on the list, the state being well formed and the block not held,
-- getting a block of the disk other than 0 on a device that is not NULL, replacing the words of its
-- buffer and putting it back dirty succeeds: the state stays well formed, and the cache stands for
-- these words as the block and for the same contents of all others but block 0.
pub write_block-IsStored :
    (c : Cache) (b : ℕ) (dev x y : Ptr) (xs : List Ptr) (words : ℕ → ℕ)
    → IsCache c (x ∷ y ∷ xs)
    → 0 < b
    → b < nr_blocks
    → (dev == null) ≡ false
    → ((p : Ptr) → is_buffer p ≡ true → c.b_blocknr p ≡ b → has p (x ∷ y ∷ xs) ≡ true)
    → (c' : Cache) × (ys : List Ptr) × (write_block c b dev words ≡ some (ok, c'))
      × IsStored c b words c' ys
unfolding write_block
write_block-IsStored c b dev x y xs words v positive lt there free =
    let (p, c1, got_it, got) = get_block_buffer-IsGot c b dev x y xs v positive lt there free in
    let (z, zs, left) = erase_two p x y xs in
    let (c', put_it, st) =
      put_block_buffer_dirt-IsStored c1 p z zs words (subst (IsCache c1) left got.cache) got.buffer
        (subst (λ l. has p l ≡ false) left got.held) (omega (arith, got.blocknr, positive)) in
    (c', z ∷ zs ++ p ∷ [], ap (put_answer words) got_it ∙ put_it, IsStored-IsGot got st)
