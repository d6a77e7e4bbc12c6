-- ===== src/Mm.antt =====
-- winix/mm.c: the pages of physical memory, and each process's table of the pages it may touch.
-- `Mem` holds the file's two static variables; `Image` holds the fields of `struct proc` that the
-- file uses. Addresses are numbers of words, as on the machine, and NULL is 0.
pub mod Alloc
pub mod Release
pub mod Region
pub mod User
mod Tests
use winix.Prelude.{
  ℕ, zero, suc, ◌+◌, ◌-◌, ◌*◌, ◌/◌, ◌%◌, ◌^◌, bit_or, Bool, true, false, not, List, Option, none,
  some, ltb, ◌==◌, if◌then◌else◌, replicate,
}
use winix.Errno.{Errno, ok, err, enomem}
use winix.Bitmap.{
  bitmap_clear, bitmap_set_bit, bitmap_set_nbits, bitmap_clear_nbits, bitmap_search_from,
  bitmap_search_reverse, is_bit_on,
}

abbrev pub mem_map_len : ℕ
mem_map_len = 4

abbrev pub ptable_len : ℕ
ptable_len = 32

abbrev pub page_len : ℕ
page_len = 1024

abbrev pub free_mem_end : ℕ
free_mem_end = 0x1ffff

abbrev pub null : ℕ
null = 0

-- `flags & GFP_HIGH` is all that the code reads of the flags.
pub data Gfp : Type 0 where
  gfp_norm gfp_high : Gfp

pub record Mem : Type 0 where
  pub mem_map : List ℕ
  pub bss_page_end : ℕ

pub record Image : Type 0 where
  pub rbase : ℕ
  pub ptable : List ℕ
  pub mem_start : ℕ
  pub heap_bottom : ℕ

-- `(((len - 1) >> 10) << 10) + PAGE_LEN` on an `int`: at 0 the shifts give -PAGE_LEN.
abbrev pub align_page : ℕ → ℕ
align_page zero = 0
align_page (suc n) = n / 1024 * 1024 + page_len

abbrev pub num_pages : ℕ → ℕ
num_pages len = align_page len / page_len

-- `get_physical_addr`, in 32 bits
abbrev pub get_physical_addr : ℕ → Image → ℕ
get_physical_addr addr who = (addr + who.rbase) % 2 ^ 32

-- The page of a physical address is `(int)addr / PAGE_LEN`: from 2 ^ 31 on the address is negative,
-- and its page is 0 or a negative index, outside the table (`none`).
unfoldable pub is_vaddr_ok : ℕ → Image → Option Bool
is_vaddr_ok addr who =
    let paddr = get_physical_addr addr who in
    if ltb paddr (2 ^ 31)
    then is_bit_on who.ptable ptable_len (paddr / page_len)
    else if ltb (2 ^ 32 - paddr) page_len
    then is_bit_on who.ptable ptable_len 0
    else none

pub is_page_free : Mem → ℕ → Option Bool
is_page_free m addr = elim (is_bit_on m.mem_map mem_map_len (addr / page_len)) [
  | none ↦ none
  | some on ↦ some (not on)
]

-- The loop of `is_pages_free_from`, with `n` pages left from page `paged` on.
pages_free : List ℕ → (n paged : ℕ) → Option Bool
pages_free map zero paged = some true
pages_free map (suc n) paged = elim (is_bit_on map mem_map_len paged) [
  | none ↦ none
  | some on ↦ elim on [ true ↦ some false | false ↦ pages_free map n (paged + 1) ]
]

pub is_pages_free_from : Mem → (addr size : ℕ) → Option Bool
unfolding pages_free
is_pages_free_from m addr size = pages_free m.mem_map (num_pages size) (addr / page_len)

-- Where `get_free_pages` looks.
abbrev pub find_pages : Mem → ℕ → Gfp → Option ℕ
find_pages m num gfp_high = bitmap_search_reverse m.mem_map mem_map_len num
find_pages m num gfp_norm = bitmap_search_from m.mem_map mem_map_len m.bss_page_end num

-- The status of `bitmap_set_nbits` is not looked at.
pub get_free_pages : Mem → ℕ → Gfp → ℕ × Mem
get_free_pages m length flags = elim (find_pages m (num_pages length) flags) [
  | none ↦ (null, m)
  | some nstart ↦ (
    nstart * page_len,
    record m { mem_map = (bitmap_set_nbits m.mem_map mem_map_len nstart (num_pages length)).1 },
  )
]

pub user_get_free_pages : Mem → Image → ℕ → Gfp → ℕ × Mem × Image
user_get_free_pages m who length flags =
    let (p, m') = get_free_pages m length flags in
    if p == null
    then (null, m', who)
    else let (status, ptable') =
        bitmap_set_nbits who.ptable ptable_len (p / page_len) (num_pages length) in
      elim status [ err ↦ (null, m', who) | _ ↦ (p, m', record who { ptable = ptable' }) ]

-- `none` is a read outside the map.
pub get_free_pages_from : Mem → (addr size : ℕ) → Option (Errno × Mem)
get_free_pages_from m addr size = elim (is_pages_free_from m addr size) [
  | none ↦ none
  | some free ↦ elim free [
    | false ↦ some (enomem, m)
    | true ↦
        let (status, map') =
          bitmap_set_nbits m.mem_map mem_map_len (addr / page_len) (num_pages size) in
        some (status, record m { mem_map = map' })
  ]
]

unfoldable pub user_get_free_pages_from :
    Mem → Image → (addr size : ℕ) → Option (Errno × Mem × Image)
user_get_free_pages_from m who addr size = elim (get_free_pages_from m addr size) [
  | none ↦ none
  | some (error, m') ↦ elim error [
    | ok ↦
        let (status, ptable') =
          bitmap_set_nbits who.ptable ptable_len (addr / page_len) (num_pages size) in
        some (status, m', record who { ptable = ptable' })
    | e ↦ some (e, m', who)
  ]
]

pub peek_next_free_page : Mem → Option ℕ
peek_next_free_page m = bitmap_search_from m.mem_map mem_map_len m.bss_page_end 1

pub peek_last_free_page : Mem → Option ℕ
peek_last_free_page m = bitmap_search_reverse m.mem_map mem_map_len 1

-- `len` counts pages.
pub release_pages : Mem → (page len : ℕ) → Errno × Mem
release_pages m page len =
    if page % page_len == 0
    then (let (status, map') = bitmap_clear_nbits m.mem_map mem_map_len (page / page_len) len in
        (status, record m { mem_map = map' }))
    else (err, m)

pub user_free_pages : Mem → Image → (page len : ℕ) → Errno × Mem × Image
user_free_pages m who page len =
    let (status, m') = release_pages m page len in
    elim status [
      | ok ↦
          let (status', ptable') = bitmap_clear_nbits who.ptable ptable_len (page / page_len) len in
          (status', m', record who { ptable = ptable' })
      | _ ↦ (err, m', who)
    ]

-- The image of the parent gives the size, the new pages go to the child.
pub dup_vm : Mem → (parent child : Image) → ℕ × Mem × Image
dup_vm m parent child =
    user_get_free_pages m child (parent.heap_bottom + 1 - parent.mem_start) gfp_norm

-- The status of `bitmap_clear_nbits` is not looked at.
pub release_proc_mem : Mem → Image → Mem × Image
release_proc_mem m who =
    let pages = (who.heap_bottom + 1 - who.mem_start) / page_len in
    let start_page = who.mem_start / page_len in
    (
      record m { mem_map = (bitmap_clear_nbits m.mem_map mem_map_len start_page pages).1 },
      record who { ptable = bitmap_clear who.ptable ptable_len },
    )

-- `bss_end` is the address that the linker gives to BSS_END; `map` is the array before the call.
pub init_mem_table : List ℕ → (bss_end : ℕ) → Mem
init_mem_table map bss_end =
    let free_mem_begin = (bit_or bss_end 0x03ff + 1) % 2 ^ 32 in
    let map0 = bitmap_clear map mem_map_len in
    let map1 = (bitmap_set_nbits map0 mem_map_len 0 (free_mem_begin / page_len)).1 in
    record {
      mem_map = (bitmap_set_bit map1 mem_map_len (free_mem_end / page_len)).1;
      bss_page_end = free_mem_begin / page_len;
    }
