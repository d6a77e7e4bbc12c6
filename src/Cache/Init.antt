-- ===== src/Cache/Init.antt =====
-- `init_buf`: every buffer is on the list, and no block of the disk but 0 is in one.
use winix.Prelude.{ℕ, ◌+◌, ◌*◌, ◌<◌, ◌≡◌, refl, List, [], ◌∷◌, arith}
use winix.Ready.{Ptr}
use winix.Ready.Chain.{has}
use winix.Cache.{Cache, block_size, init_from, init_buf}
use winix.Cache.Chain.{IsLru}
use winix.Cache.View.{content, IsCache, content-uncached}

abbrev pub all_buffers : List Ptr
all_buffers = 1 ∷ 2 ∷ 3 ∷ 4 ∷ []

init_from-IsLru : (c : Cache) → IsLru ((init_buf c).lru) all_buffers
unfolding init_buf init_from has
init_from-IsLru c = record {
  linked = (
    refl,
    ground arith,
    refl,
    refl,
    (
      refl,
      ground arith,
      refl,
      refl,
      (refl, ground arith, refl, refl, (refl, ground arith, refl, refl, refl)),
    ),
  );
  front = λ _. refl;
}

-- init_buf makes a well-formed state in which all four buffers are on the list, and the cache
-- stands for what is on the disk for every block other than 0.
pub init_buf-IsCache :
    (c : Cache)
    → IsCache (init_buf c) all_buffers
      × ((b i : ℕ) → 0 < b → content (init_buf c) b i ≡ c.disk (b * block_size + i))
unfolding init_buf has
init_buf-IsCache c = (
  record {
    lru = init_from-IsLru c;
    table = record {
      on_disk = λ p is. omega arith;
      unique = λ p q _ _ _ used. absurd (omega arith);
    };
    devices = record { device = λ p is why. absurd (ground (arith, why)) };
    buffers = λ p m. ground (arith, m);
    clean = λ p m. record { agrees = λ _ used. absurd (omega arith) };
  },
  λ b i positive. content-uncached (init_buf c) b (λ p is. ground arith) i,
)
