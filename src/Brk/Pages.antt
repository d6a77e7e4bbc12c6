-- ===== src/Brk/Pages.antt =====
-- `user_get_free_pages_from`, with the process's own table.
use winix.Prelude.{ℕ, ◌+◌, ◌/◌, ◌≤◌, ◌<◌, ◌≡◌, refl, true, ◌||◌, some, arith, List, length, lt→ltb}
use winix.Errno.{Errno, ok, enomem}
use winix.Bitmap.{bitmap_set_nbits}
use winix.Bitmap.Masks.{page_on}
use winix.Bitmap.Search.{FreeRun}
use winix.Bitmap.Update.{in_range, fits, bitmap_set_nbits-page_on}
use winix.Mm.{
  Mem, Image, page_len, ptable_len, num_pages, get_free_pages_from, user_get_free_pages_from,
}
use winix.Mm.Alloc.{IsValid, num_pages_lem, run_below}
use winix.Mm.Region.{Claimed, taken, busy, get_free_pages_from-Claimed}

-- What `user_get_free_pages_from` did with the pages: it took them and lets the process use them, or
-- changed nothing.
pub data Given (m : Mem) (who : Image) (p n : ℕ) : Errno × Mem × Image → Type 0 where
  given :
      {m' : Mem} {table : List ℕ}
      → Claimed m p n ok m'
      → length table ≡ ptable_len
      → ((q : ℕ) → page_on table q ≡ (in_range p n q || page_on who.ptable q))
      → Given m who p n (ok, m', record who { ptable = table })
  not_given : ¬ FreeRun m.mem_map p n → Given m who p n (enomem, m, who)

module _ {m : Mem} (v : IsValid m) (who : Image) (words : length who.ptable ≡ ptable_len)
    (addr size : ℕ) (some_size : 0 < size) where
  abbrev p : ℕ
  p = addr / page_len

  abbrev n : ℕ
  n = num_pages size

  answered :
      {status : Errno} {m' : Mem}
      → Claimed m p n status m'
      → get_free_pages_from m addr size ≡ some (status, m')
      → p + n ≤ 128
      → (answer : Errno × Mem × Image) × (user_get_free_pages_from m who addr size ≡ some answer)
        × Given m who p n answer
  unfolding user_get_free_pages_from
  answered {m'} (taken free marks valid) e room =
      let below = run_below v p n (omega (arith, num_pages_lem size)) room free in
      let after = bitmap_set_nbits-page_on who.ptable ptable_len words p n in
      let inside : fits ptable_len p n ≡ true = lt→ltb _ _ (omega (arith, below)) in
      (
        (ok, m', record who { ptable = (bitmap_set_nbits who.ptable ptable_len p n).1 }),
        rw (e, user_get_free_pages_from, (after 0).0, inside) refl,
        given (taken free marks valid) (after 0).2 (λ q. rw ((after q).1, inside) refl),
      )
  answered (busy not_free) e room =
      ((enomem, m, who), rw (e, user_get_free_pages_from) refl, not_given not_free)

  -- For a range that lies in memory.
  pub user_get_free_pages_from-Given :
      p + n ≤ 128
      → (answer : Errno × Mem × Image) × (user_get_free_pages_from m who addr size ≡ some answer)
        × Given m who p n answer
  user_get_free_pages_from-Given room =
      let (status, m', e, claimed) = get_free_pages_from-Claimed v addr size some_size room in
      answered claimed e room
