-- ===== src/Cache/Tests.antt =====
-- Tests of the block cache, and the examples of its theorems.
use winix.Prelude.{ℕ, ◌+◌, ◌*◌, ◌<◌, ◌≡◌, refl, true, some, List, [], ◌∷◌, arith}
use winix.Errno.{ok}
use winix.Ready.{Ptr, null, update}
use winix.Ready.Chain.{has}
use winix.Ready.Remove.{erase}
use winix.Cache.{
  Cache, Lru, block_size, get_block_buffer, dequeue_buf, enqueue_buf, flush_all_buffer, init_buf,
}
use winix.Cache.Chain.{IsLru, dequeue_buf_last}
use winix.Cache.View.{IsCache, is_buffer, content}
use winix.Cache.Get.{IsGot, get_block_buffer-IsGot}
use winix.Cache.Put.{IsStored, write_block, write_block-IsStored}
use winix.Cache.Flush.{IsFlushed, flush_all_buffer-IsFlushed}
use winix.Cache.Init.{init_buf-IsCache, all_buffers}

abbrev lru_of : Cache → Lru
lru_of c = c.lru

-- A disk on which each word is its address, and no buffers yet.
abbrev off : Cache
off = record {
  lru = record { next = λ _. 0; prev = λ _. 0; front = 0; rear = 0 };
  block = λ _ _. 9;
  b_blocknr = λ _. 9;
  b_dev = λ _. 0;
  b_dirt = λ _. true;
  b_count = λ _. 9;
  disk = λ a. a;
}

abbrev on : Cache
on = init_buf off

no_block :
    (b : ℕ) → 0 < b → (p : Ptr) → is_buffer p ≡ true → on.b_blocknr p ≡ b → has p all_buffers ≡ true
unfolding init_buf
no_block b positive p is at = absurd (omega (arith, at))

all_free : (p : Ptr) → is_buffer p ≡ true → has p all_buffers ≡ true
unfolding has
all_free p is = ground arith

get_block_buffer_example :
    (p : Ptr) × (c' : Cache) × (get_block_buffer on 3 7 ≡ some (p, c'))
    × IsGot on 3 p c' (erase p all_buffers)
get_block_buffer_example =
    get_block_buffer-IsGot on 3 7 1 2 (3 ∷ 4 ∷ []) (init_buf-IsCache off).0 (omega arith)
      (omega arith) refl (no_block 3 (omega arith))

write_block_example :
    (c' : Cache) × (ys : List Ptr) × (write_block on 3 7 (λ i. i + 7) ≡ some (ok, c'))
    × IsStored on 3 (λ i. i + 7) c' ys
write_block_example =
    write_block-IsStored on 3 7 1 2 (3 ∷ 4 ∷ []) (λ i. i + 7) (init_buf-IsCache off).0 (omega arith)
      (omega arith) refl (no_block 3 (omega arith))

-- All buffers are on the list; the first is of block 3, on device 7, and dirty.
abbrev dirty : Cache
dirty = record on {
  block = update on.block 1 (λ i. i + 7);
  b_blocknr = update on.b_blocknr 1 3;
  b_dev = update on.b_dev 1 7;
  b_dirt = update on.b_dirt 1 true;
}

dirty-IsCache : IsCache dirty all_buffers
unfolding init_buf
dirty-IsCache =
    let v = (init_buf-IsCache off).0 in
    record {
      lru = v.lru;
      table = record {
        on_disk = λ p is. ground arith;
        unique = λ p q _ _ same used. ground (arith, same, used);
      };
      devices = record { device = λ p is why. ground (arith, why) };
      buffers = v.buffers;
      clean = λ p m. record { agrees = λ idle used. absurd (ground (arith, idle, used)) };
    }

flush_all_buffer_example :
    (c' : Cache) × (flush_all_buffer dirty ≡ some c') × IsFlushed dirty c' all_buffers
flush_all_buffer_example = flush_all_buffer-IsFlushed dirty all_buffers dirty-IsCache all_free

init_buf_example :
    IsCache (init_buf off) all_buffers
    × ((b i : ℕ) → 0 < b → content (init_buf off) b i ≡ b * block_size + i)
init_buf_example = init_buf-IsCache off

-- A list of one buffer.
abbrev single : Lru
single = record { next = λ _. 0; prev = λ _. 0; front = 2; rear = 2 }

single-IsLru : IsLru single (2 ∷ [])
unfolding has
single-IsLru = record { linked = (refl, ground arith, refl, refl, refl); front = λ _. refl }

dequeue_buf_last_example :
    ((dequeue_buf single).0 ≡ 2)
    × ((l' : Lru) × (enqueue_buf ((dequeue_buf single).1) 2 ≡ some l')
        × ((dequeue_buf l').0 ≡ null))
dequeue_buf_last_example = dequeue_buf_last 2 single-IsLru
