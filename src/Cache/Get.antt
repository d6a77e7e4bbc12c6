-- ===== src/Cache/Get.antt =====
-- `get_block_buffer`: the buffer has the contents of the block, and the cache stands for the same.
use mathlib.Core.Path.{subst}
use winix.Prelude.{
  ℕ, ◌<◌, ◌≡◌, refl, ◌∙◌, sym, true, false, some, List, [], ◌∷◌, ◌==◌, arith, Bool-cases, ==_iff,
  inl, inr,
}
use winix.Ready.{Ptr, null, update}
use winix.Ready.Chain.{has, ne_of_has}
use winix.Ready.Remove.{erase, erase_here, has-erase_le}
use winix.Cache.{
  Cache, Lru, lru_len, block_size, find_buffer, load, reheld, with_lru, get_block_buffer,
  dequeue_buf,
}
use winix.Cache.Chain.{Linked, Linked-same, IsLru, dequeue_buf-IsLru}
use winix.Cache.Remove.{rm_lru-IsLru}
use winix.Cache.Disk.{nr_blocks}
use winix.Cache.Load.{
  Absent, load-IsLoaded, IsLoaded-IsTable, IsLoaded-HasDevices, IsLoaded-content, IsLoaded-others,
  blocknr_here,
}
use winix.Cache.View.{
  is_buffer, content, IsTable, IsClean, IsCache, located, cached, uncached, content-cached,
  content-uncached,
}
use winix.Cache.Written.{
  IsTable-same, HasDevices-same, IsWritten, IsWritten-HasDevices, written, written-IsWritten,
  IsWritten-content, IsWritten-IsClean, IsWritten-others,
}

-- What a buffer that was got for block `b` is, with `xs` the buffers that are not held any more.
pub record IsGot (c : Cache) (b : ℕ) (p : Ptr) (c' : Cache) (xs : List Ptr) : Type 0 where
  pub cache : IsCache c' xs
  pub buffer : is_buffer p ≡ true
  pub blocknr : c'.b_blocknr p ≡ b
  pub held : has p xs ≡ false
  pub kept : (b' i : ℕ) → 0 < b' → i < block_size → content c' b' i ≡ content c b' i
  pub reads : (i : ℕ) → i < block_size → c'.block p i ≡ content c b i

-- A buffer that was taken off is on the list no more.
erase-has :
    (next prev : Ptr → Ptr) (p before q : Ptr) (xs : List Ptr)
    → Linked next prev before q xs
    → has p (erase p xs) ≡ false
unfolding erase has
erase-has next prev p before q [] l = refl
erase-has next prev p before q (x ∷ xs) l = elim (Bool-cases (x == p)) [
  | inl e ↦ let same : x ≡ p = (==_iff _ _).0 e in rw e (subst (λ r. has r xs ≡ false) same l.2)
  | inr e ↦ rw e (ground (arith, erase-has next prev p x (next x) xs l.4))
]

has-erase : (a p : Ptr) (xs : List Ptr) → has a (erase p xs) ≡ true → has a xs ≡ true
has-erase a p xs m = elim (Bool-cases (has a xs)) [
  | inl e ↦ e
  | inr e ↦ absurd (ground (arith, m, has-erase_le a p xs e))
]

-- The two ways through the function.
get_hit :
    (c : Cache) (b : ℕ) (dev p : Ptr)
    → find_buffer lru_len 1 c b ≡ p
    → (p == null) ≡ false
    → get_block_buffer c b dev ≡ some (p, reheld c p)
unfolding get_block_buffer
get_hit c b dev p found filled = rw (found, filled) refl

get_miss :
    (c : Cache) (b : ℕ) (dev p : Ptr)
    → find_buffer lru_len 1 c b ≡ null
    → (dequeue_buf c.lru).0 ≡ p
    → (p == null) ≡ false
    → get_block_buffer c b dev ≡ load (with_lru c (dequeue_buf c.lru).1) p b dev
unfolding get_block_buffer
get_miss c b dev p found first filled = rw (found, first, filled) refl

-- The contents depend on the buffers and the disk.
content-with_lru : (c : Cache) (l : Lru) (b i : ℕ) → content (with_lru c l) b i ≡ content c b i
unfolding content find_buffer
content-with_lru c l b i = refl

content-reheld : (c : Cache) (p : Ptr) (b i : ℕ) → content (reheld c p) b i ≡ content c b i
unfolding content find_buffer
content-reheld c p b i = refl

-- A block that is in a buffer on the list.
get_cached :
    (c : Cache) (b : ℕ) (p : Ptr) (xs : List Ptr)
    → IsCache c xs
    → 0 < b
    → is_buffer p ≡ true
    → c.b_blocknr p ≡ b
    → has p xs ≡ true
    → IsGot c b p (reheld c p) (erase p xs)
get_cached c b p xs v positive is at on = record {
  cache = record {
    lru = rm_lru-IsLru p xs v.lru on;
    table = IsTable-same c (reheld c p) refl v.table;
    devices = HasDevices-same c (reheld c p) refl refl (λ q d. inr d) v.devices;
    buffers = λ q m. v.buffers q (has-erase q p xs m);
    clean = λ q m. record { agrees = (v.clean q (has-erase q p xs m)).agrees };
  };
  buffer = is;
  blocknr = at;
  held = erase-has c.lru.next c.lru.prev p null c.lru.rear xs (v.lru.linked);
  kept = λ b' i _ _. content-reheld c p b' i;
  reads = λ i _. sym (content-cached {c = c} p v.table positive is at i);
}

-- A buffer that is off the list stays so when its links are cleared.
IsLru-cleared :
    {l : Lru} (p : Ptr) (xs : List Ptr)
    → IsLru l xs
    → has p xs ≡ false
    → IsLru (record l { next = update l.next p null; prev = update l.prev p null }) xs
IsLru-cleared {l} p xs v out = record {
  linked = Linked-same null l.rear xs v.linked (λ a m.
      let other : (a == p) ≡ false = ne_of_has a p xs m out in (rw other refl, rw other refl));
  front = v.front;
}

first : (a : Ptr) (ys : List Ptr) → has a (a ∷ ys) ≡ true
unfolding has
first a ys = ground arith

later : (q a : Ptr) (ys : List Ptr) → has q ys ≡ true → has q (a ∷ ys) ≡ true
unfolding has
later q a ys m = ground (arith, m)

-- A block that is in no buffer, when two buffers or more are on the list.
get-Absent :
    (c : Cache) (b : ℕ) (dev x y : Ptr) (xs : List Ptr)
    → IsCache c (x ∷ y ∷ xs)
    → 0 < b
    → b < nr_blocks
    → (dev == null) ≡ false
    → Absent c b
    → (c' : Cache) × (load (with_lru c (dequeue_buf c.lru).1) x b dev ≡ some (x, c'))
      × IsGot c b x c' (y ∷ xs)
get-Absent c b dev x y xs v positive lt there out =
    let c0 = with_lru c (dequeue_buf c.lru).1 in
    let c1 = written c0 x in
    let is : is_buffer x ≡ true = v.buffers x (first x (y ∷ xs)) in
    let t : IsTable c0 = IsTable-same c c0 refl v.table in
    let w : IsWritten c0 x c1 = written-IsWritten c0 x (v.table.on_disk x is) in
    let t1 : IsTable c1 = IsTable-same c0 c1 w.blocknr t in
    let out1 : Absent c1 b = λ q is'. rw w.blocknr (out q is') in
    let (c', ran, l) = load-IsLoaded c0 x b dev lt there in
    let (_, lru) = dequeue_buf-IsLru x y xs v.lru in
    let off : has x (y ∷ xs) ≡ false = v.lru.linked.2 in
    let still : (q : Ptr) → has q (x ∷ y ∷ xs) ≡ true → IsClean c0 q =
      λ q m. record { agrees = (v.clean q m).agrees } in
    let kept : (b' i : ℕ) → 0 < b' → i < block_size → content c' b' i ≡ content c b' i =
      λ b' i positive' inner.
        IsLoaded-content c1 x b c' t1 is lt positive out1 l
          (IsWritten-IsClean c0 x c1 w (still x (first x (y ∷ xs)))) w.clean b' i positive' inner
        ∙ IsWritten-content t is w b' i positive' inner
        ∙ content-with_lru c (dequeue_buf c.lru).1 b' i in
    (
      c',
      ran,
      record {
        cache = record {
          lru = rw l.next (
              subst
                (λ m.
                  IsLru (record m { next = update m.next x null; prev = update m.prev x null })
                    (y ∷ xs))
                (sym w.lru) (IsLru-cleared x (y ∷ xs) lru off));
          table = IsLoaded-IsTable c1 x b c' t1 is lt positive out1 l;
          devices = IsLoaded-HasDevices c1 x b c' t1 is lt positive out1 l (
              IsWritten-HasDevices c0 x c1 w
                (HasDevices-same c c0 refl refl (λ q d. inr d) v.devices));
          buffers = λ q m. v.buffers q (later q x (y ∷ xs) m);
          clean = λ q m.
              let other : (q == x) ≡ false = ne_of_has q x (y ∷ xs) m off in
              IsLoaded-others c1 x b c' q l other (
                IsWritten-others c0 x c1 q t is (v.buffers q (later q x (y ∷ xs) m)) other w
                  (still q (later q x (y ∷ xs) m)));
        };
        buffer = is;
        blocknr = blocknr_here c1 x b c' t1 is lt positive out1 l;
        held = off;
        kept = kept;
        reads = λ i inner.
            l.here i inner
            ∙ sym (content-uncached c1 b out1 i)
            ∙ IsWritten-content t is w b i positive inner
            ∙ content-with_lru c (dequeue_buf c.lru).1 b i;
      },
    )

-- With at least two buffers on the list, the state being well formed and the block not held,
-- get_block_buffer of a block of the disk other than 0, on a device that is not NULL, answers a buffer
-- with the contents of the block, which is held from now on; the state stays well formed, and the
-- cache stands for the same contents of all blocks other than 0.
pub get_block_buffer-IsGot :
    (c : Cache) (b : ℕ) (dev x y : Ptr) (xs : List Ptr)
    → IsCache c (x ∷ y ∷ xs)
    → 0 < b
    → b < nr_blocks
    → (dev == null) ≡ false
    → ((p : Ptr) → is_buffer p ≡ true → c.b_blocknr p ≡ b → has p (x ∷ y ∷ xs) ≡ true)
    → (p : Ptr) × (c' : Cache) × (get_block_buffer c b dev ≡ some (p, c'))
      × IsGot c b p c' (erase p (x ∷ y ∷ xs))
get_block_buffer-IsGot c b dev x y xs v positive lt there free = elim (located c b) [
  | cached p is at found _ ↦ (
    p,
    reheld c p,
    get_hit c b dev p found (ground arith),
    get_cached c b p (x ∷ y ∷ xs) v positive is at (free p is at),
  )
  | uncached out found _ ↦
      let (c', ran, got) = get-Absent c b dev x y xs v positive lt there out in
      let filled : (x == null) ≡ false = ground (arith, v.lru.linked.1) in
      let (is_first, _) = dequeue_buf-IsLru x y xs v.lru in
      let gone : erase x (x ∷ y ∷ xs) ≡ y ∷ xs = erase_here x x (y ∷ xs) (ground arith) in
      (x, c', get_miss c b dev x found is_first filled ∙ ran, rw gone got)
]
