-- ===== src/Mm/Tests.antt =====
-- The functions of winix/mm.c on a booted memory, and the theorems there.
use winix.Prelude.{
  ℕ, ◌-◌, ◌*◌, ◌≡◌, refl, true, false, ◌||◌, List, [], ◌∷◌, arith, ltb, ◌==◌, ◌⊎◌, inl, inr,
  replicate, bit,
}
use mathlib.Core.Path.{subst}
use winix.Errno.{ok}
use winix.Bitmap.{
  bitmap_set_nbits, bitmap_clear, bitmap_set_bit, bitmap_search_from, bitmap_search_reverse, mask,
}
use winix.Bitmap.Masks.{page_on}
use winix.Bitmap.Update.{in_range}
use winix.Mm.{
  Mem, Image, gfp_norm, gfp_high, null, init_mem_table, get_free_pages, release_pages,
  user_get_free_pages, user_free_pages,
}
use winix.Mm.Alloc.{IsValid, Granted, NoRun, get_free_pages-Granted}
use winix.Mm.Release.{release_pages-get_free_pages}
use winix.Mm.Region.{init_mem_table-IsValid}
use winix.Mm.User.{MayUse, user_get_free_pages-MayUse, user_free_pages-user_get_free_pages}

abbrev raw : List ℕ
raw = 0xffff_ffff ∷ 0 ∷ 7 ∷ 0 ∷ []

-- A kernel whose image ends at word 5000: pages 0 to 4.
abbrev booted : Mem
booted = init_mem_table raw 5000

booted_words : booted ≡ record { mem_map = 0xf800_0000 ∷ 0 ∷ 0 ∷ 1 ∷ []; bss_page_end = 5 }
unfolding init_mem_table mask bitmap_clear bitmap_set_bit bitmap_set_nbits
booted_words = refl

allocations :
    ((get_free_pages booted 3000 gfp_norm).0 ≡ 5 * 1024)
    × ((get_free_pages booted 3000 gfp_high).0 ≡ 124 * 1024)
    × ((get_free_pages booted 200000 gfp_norm).0 ≡ null)
unfolding init_mem_table get_free_pages mask bitmap_clear bitmap_set_bit bitmap_set_nbits
    bitmap_search_from bitmap_search_reverse
allocations = (refl, refl, refl)

abbrev idle : Image
idle = record {
  rbase = 0;
  ptable = replicate 32 0;
  mem_start = 5 * 1024;
  heap_bottom = 8 * 1024 - 1;
}

init_mem_table_example :
    IsValid booted
    × (booted.bss_page_end ≡ 5)
    × ((p : ℕ) → page_on booted.mem_map p ≡ (ltb p booted.bss_page_end || (p == 127)))
init_mem_table_example = init_mem_table-IsValid raw 5000 refl (omega arith)

valid : IsValid booted
valid = (init_mem_table-IsValid raw 5000 refl (omega arith)).0

get_free_pages_example :
    let (r, m') = get_free_pages booted 3000 gfp_norm in
    ((r ≡ null) × (m' ≡ booted) × NoRun booted 3) ⊎ Granted booted 3 r m'
get_free_pages_example = get_free_pages-Granted valid 3000 gfp_norm (omega arith)

first_free : booted.bss_page_end ≡ 5
unfolding init_mem_table
first_free = refl

abbrev grant : ℕ × Mem
grant = get_free_pages booted 3000 gfp_norm

grant_address : grant.0 ≡ 5120
unfolding init_mem_table get_free_pages mask bitmap_clear bitmap_set_bit bitmap_set_nbits
    bitmap_search_from
grant_address = refl

granted : Granted booted 3 5120 grant.1
granted = elim (get_free_pages-Granted valid 3000 gfp_norm (omega arith)) [
  | inl (nothing, same, none_free) ↦ absurd (omega (arith, nothing, grant_address))
  | inr g ↦ subst (λ r. Granted booted 3 r grant.1) grant_address g
]

release_pages-get_free_pages_example :
    let (status, m'') = release_pages grant.1 5120 3 in
    (status ≡ ok) × (page_on m''.mem_map 6 ≡ page_on booted.mem_map 6)
release_pages-get_free_pages_example = release_pages-get_free_pages 3 5120 6 valid granted

user_get_free_pages_example :
    let (r, m', who') = user_get_free_pages booted idle 3000 gfp_norm in
    ((r ≡ null) × (m' ≡ booted) × (who' ≡ idle) × NoRun booted 3)
    ⊎ (Granted booted 3 r m' × MayUse idle 3 r who')
user_get_free_pages_example = user_get_free_pages-MayUse valid idle refl 3000 gfp_norm (omega arith)

abbrev user_grant : ℕ × Mem × Image
user_grant = user_get_free_pages booted idle 3000 gfp_norm

user_address : user_grant.0 ≡ 5120
unfolding init_mem_table user_get_free_pages get_free_pages mask bitmap_clear bitmap_set_bit
    bitmap_set_nbits bitmap_search_from
user_address = refl

user_gets : Granted booted 3 5120 user_grant.1 × MayUse idle 3 5120 user_grant.2
user_gets = elim (user_get_free_pages-MayUse valid idle refl 3000 gfp_norm (omega arith)) [
  | inl (nothing, same, who, none_free) ↦ absurd (omega (arith, nothing, user_address))
  | inr (g, u) ↦ (
    subst (λ r. Granted booted 3 r user_grant.1) user_address g,
    subst (λ r. MayUse idle 3 r user_grant.2) user_address u,
  )
]

no_page_before : (q : ℕ) → in_range 5 3 q ≡ true → page_on idle.ptable q ≡ false
unfolding page_on bit
no_page_before q h =
    let which : (q ≡ 5) ⊎ ((q ≡ 6) ⊎ (q ≡ 7)) = ground arith in
    elim which [ inl e ↦ rw e | inr rest ↦ elim rest [ inl e ↦ rw e | inr e ↦ rw e ] ]

user_free_pages_example :
    let (status, m'', who'') = user_free_pages user_grant.1 user_grant.2 5120 3 in
    (status ≡ ok)
    × (page_on m''.mem_map 6 ≡ page_on booted.mem_map 6)
    × (page_on who''.ptable 6 ≡ page_on idle.ptable 6)
user_free_pages_example =
    user_free_pages-user_get_free_pages valid idle refl 3 5120 6 user_gets.0 user_gets.1
      no_page_before
