-- ===== src/Cache.antt =====
-- fs/cache.c, the cache of disk blocks, and the block device of fs/rootfs.c. A buffer is a pointer:
-- &buf_table[j] is j + 1 and NULL is 0. The lru list leads from REAR through `next` to FRONT. There
-- is one block device, so that a `struct device *` is NULL or stands for it; `none` stands for an
-- access through NULL.
pub mod Chain
pub mod Remove
pub mod Disk
pub mod View
pub mod Written
pub mod Load
pub mod Get
pub mod Put
pub mod Flush
pub mod Init
mod Tests
use mathlib.Core.Option.{map}
use winix.Prelude.{
  ℕ, zero, suc, ◌+◌, ◌-◌, ◌*◌, ◌%◌, ◌^◌, Bool, true, false, not, ◌&&◌, ◌||◌, Option, none, some,
  ltb, leb, ◌==◌, if◌then◌else◌,
}
use winix.Errno.{Errno, ok, eio}
use winix.Ready.{Ptr, null, update}
use winix.Strings.{Memory}

abbrev pub lru_len : ℕ
lru_len = 4

abbrev pub block_size : ℕ
block_size = 1024

-- DISK_SIZE, the length of DISK_RAW
abbrev pub disk_size : ℕ
disk_size = 51200

-- `lru_cache` and the links of the buffers.
pub record Lru : Type 0 where
  pub next : Ptr → Ptr
  pub prev : Ptr → Ptr
  pub front : Ptr
  pub rear : Ptr

pub record Cache : Type 0 where
  pub lru : Lru
  pub block : Ptr → ℕ → ℕ
  pub b_blocknr : Ptr → ℕ
  pub b_dev : Ptr → Ptr
  pub b_dirt : Ptr → Bool
  pub b_count : Ptr → ℕ
  pub disk : Memory

unfoldable pub rm_lru : Lru → Ptr → Lru
rm_lru l buffer = record {
  next =
      if not (l.prev buffer == null) then update l.next (l.prev buffer) (l.next buffer) else l.next;
  prev =
      if not (l.next buffer == null) then update l.prev (l.next buffer) (l.prev buffer) else l.prev;
  rear = if l.rear == buffer then l.next buffer else l.rear;
  front = if l.front == buffer then l.prev buffer else l.front;
}

-- It answers the buffer, NULL if the list is empty.
unfoldable pub dequeue_buf : Lru → Ptr × Lru
dequeue_buf l =
    let second = l.next l.rear in
    if l.rear == null then (null, l) else (
      l.rear,
      record l {
        prev =
            update (if not (second == null) then update l.prev second null else l.prev) l.rear null;
        rear = second;
        next = update l.next l.rear null;
      },
    )

unfoldable pub enqueue_buf : Lru → Ptr → Option Lru
enqueue_buf l tbuf =
    if l.front == null
    then none
    else some (record l {
      next = update (update l.next tbuf null) l.front tbuf;
      prev = update l.prev tbuf l.front;
      front = tbuf;
    })

-- `while(count-- > 0) *to++ = *from++;` between two memories.
unfoldable pub copy_words : (count to from : ℕ) → (source target : Memory) → Memory
copy_words zero to from source target = target
copy_words (suc count) to from source target =
    copy_words count (to + 1) (from + 1) source (update target to (source from))

-- The number of words that a transfer of `len` words at `off` has.
abbrev pub transfer_len : (off len : ℕ) → ℕ
transfer_len off len =
    if leb disk_size off then 0 else if ltb disk_size (off + len) then disk_size - off else len

unfoldable pub blk_dev_io_read : (disk buf : Memory) (off len : ℕ) → ℕ × Memory
blk_dev_io_read disk buf off len =
    (transfer_len off len, copy_words (transfer_len off len) 0 off disk buf)

unfoldable pub blk_dev_io_write : (disk buf : Memory) (off len : ℕ) → ℕ × Memory
blk_dev_io_write disk buf off len =
    (transfer_len off len, copy_words (transfer_len off len) off 0 buf disk)

-- READING and WRITING
pub data Transfer : Type 0 where
  reading writing : Transfer

-- `tbuf->b_blocknr * BLOCK_SIZE`
abbrev pub offset_of : (blocknr : ℕ) → ℕ
offset_of blocknr = blocknr * block_size % 2 ^ 32

-- `dev->dops->dev_read` and `dev_write`, which are those of the one block device.
unfoldable pub transfer : Cache → (tbuf : Ptr) → Transfer → ℕ × Cache
transfer c tbuf reading =
    let (ret, words) =
      blk_dev_io_read c.disk (c.block tbuf) (offset_of (c.b_blocknr tbuf)) block_size in
    (ret, record c { block = update c.block tbuf words })
transfer c tbuf writing =
    let (ret, words) =
      blk_dev_io_write c.disk (c.block tbuf) (offset_of (c.b_blocknr tbuf)) block_size in
    (ret, record c { disk = words })

-- `none` if the device is NULL, as `dev->dops` is read.
unfoldable pub block_io : Cache → (tbuf dev : Ptr) → Transfer → Option (ℕ × Cache)
block_io c tbuf dev flag = if dev == null then none else some (transfer c tbuf flag)

abbrev pub set_dirt : Cache → Ptr → Bool → Cache
set_dirt c tbuf dirt = record c { b_dirt = update c.b_dirt tbuf dirt }

unfoldable pub put_block_buffer : Cache → Ptr → Option (Errno × Cache)
put_block_buffer c tbuf =
    map (λ l. (ok, record c { lru = l; b_count = update c.b_count tbuf (c.b_count tbuf - 1) }))
      (enqueue_buf c.lru tbuf)

unfoldable pub put_block_buffer_dirt : Cache → Ptr → Option (Errno × Cache)
put_block_buffer_dirt c tbuf = put_block_buffer (set_dirt c tbuf true) tbuf

-- What follows the transfer in `put_block_buffer_immed`.
abbrev pub put_written : (tbuf : Ptr) → Option (ℕ × Cache) → Option (Errno × Cache)
put_written tbuf none = none
put_written tbuf (some (ret, c)) =
    if ret == 0 then some (eio, c) else put_block_buffer (set_dirt c tbuf false) tbuf

unfoldable pub put_block_buffer_immed : Cache → (tbuf dev : Ptr) → Option (Errno × Cache)
put_block_buffer_immed c tbuf dev = put_written tbuf (block_io c tbuf dev writing)

-- The loop of `get_block_buffer`, with `n` buffers left from `tbuf` on; NULL if none is found.
unfoldable pub find_buffer : (n tbuf : ℕ) → Cache → (blocknr : ℕ) → Ptr
find_buffer zero tbuf c blocknr = null
find_buffer (suc n) tbuf c blocknr =
    let rest = find_buffer n (tbuf + 1) c blocknr in
    if c.b_blocknr tbuf == blocknr then tbuf else rest

-- A dirty buffer is written to `dev`; what the transfer returns is not looked at.
abbrev pub write_back : Cache → (tbuf dev : Ptr) → Option Cache
write_back c tbuf dev =
    if c.b_dirt tbuf
    then map (λ (ret, c'). set_dirt c' tbuf false) (block_io c tbuf dev writing)
    else some c

-- What is set once the block has been read to `tbuf`.
abbrev pub retagged : Cache → (tbuf : Ptr) → (dev : Ptr) → Cache
retagged c tbuf dev = record c {
  lru = record (c.lru) { next = update c.lru.next tbuf null; prev = update c.lru.prev tbuf null };
  b_dirt = update c.b_dirt tbuf false;
  b_dev = update c.b_dev tbuf dev;
  b_count = update c.b_count tbuf 1;
}

-- Block `blocknr` is read to `tbuf` once the old contents are written.
abbrev pub read_block :
    (tbuf : Ptr) → (blocknr : ℕ) → (dev : Ptr) → Option Cache → Option (ℕ × Cache)
read_block tbuf blocknr dev none = none
read_block tbuf blocknr dev (some c) =
    block_io (record c { b_blocknr = update c.b_blocknr tbuf blocknr }) tbuf dev reading

-- `tbuf`, which is off the list, used for the block: its old contents are written and the new ones
-- read.
abbrev pub reused : Cache → (tbuf : Ptr) → (blocknr : ℕ) → (dev : Ptr) → Option (ℕ × Cache)
reused c tbuf blocknr dev = read_block tbuf blocknr dev (write_back c tbuf dev)

-- What follows the read: NULL if the block could not be read.
abbrev pub was_read : (tbuf dev : Ptr) → Option (ℕ × Cache) → Option (Ptr × Cache)
was_read tbuf dev none = none
was_read tbuf dev (some (ret, c)) =
    if not (ret == block_size)
    then map (λ l. (null, record c { lru = l })) (enqueue_buf c.lru tbuf)
    else some (tbuf, retagged c tbuf dev)

unfoldable pub load : Cache → (tbuf : Ptr) → (blocknr : ℕ) → (dev : Ptr) → Option (Ptr × Cache)
load c tbuf blocknr dev = was_read tbuf dev (reused c tbuf blocknr dev)

-- A buffer that has the block already is taken off the list.
abbrev pub reheld : Cache → (tbuf : Ptr) → Cache
reheld c tbuf = record c {
  lru = rm_lru c.lru tbuf;
  b_count = update c.b_count tbuf (c.b_count tbuf + 1);
}

abbrev pub with_lru : Cache → Lru → Cache
with_lru c l = record c { lru = l }

unfoldable pub get_block_buffer : Cache → (blocknr : ℕ) → (dev : Ptr) → Option (Ptr × Cache)
get_block_buffer c blocknr dev =
    let hit = find_buffer lru_len 1 c blocknr in
    if not (hit == null)
    then some (hit, reheld c hit)
    else let (tbuf, l) = dequeue_buf c.lru in
      if tbuf == null then some (null, c) else load (with_lru c l) tbuf blocknr dev

-- A loop goes on with what a round leaves.
abbrev pub go_on : Option Cache → (Cache → Option Cache) → Option Cache
go_on none rest = none
go_on (some c) rest = rest c

-- The loop of `flush_all_buffer`, with `n` buffers left from `tbuf` on.
unfoldable pub flush_from : (n tbuf : ℕ) → Cache → Option Cache
flush_from zero tbuf c = some c
flush_from (suc n) tbuf c =
    go_on (write_back c tbuf (c.b_dev tbuf)) (λ c'. flush_from n (tbuf + 1) c')

unfoldable pub flush_all_buffer : Cache → Option Cache
flush_all_buffer c = flush_from lru_len 1 c

-- The loop over the buffers in `flush_inode_zones`.
unfoldable pub flush_zone : (n tbuf : ℕ) → (zid : ℕ) → (i_dev : Ptr) → Cache → Option Cache
flush_zone zero tbuf zid i_dev c = some c
flush_zone (suc n) tbuf zid i_dev c =
    go_on (if c.b_blocknr tbuf == zid then write_back c tbuf i_dev else some c)
      (λ c'. flush_zone n (tbuf + 1) zid i_dev c')

-- The loop over the zones, with `n` left from zone `i` on.
unfoldable pub flush_zones : (n i : ℕ) → (i_zone : ℕ → ℕ) → (i_dev : Ptr) → Cache → Option Cache
flush_zones zero i i_zone i_dev c = some c
flush_zones (suc n) i i_zone i_dev c =
    go_on (if ltb 0 (i_zone i) then flush_zone lru_len 1 (i_zone i) i_dev c else some c)
      (λ c'. flush_zones n (i + 1) i_zone i_dev c')

unfoldable pub flush_inode_zones : (i_zone : ℕ → ℕ) → (i_dev : Ptr) → Cache → Option Cache
flush_inode_zones i_zone i_dev c = flush_zones 8 0 i_zone i_dev c

-- The rounds of `init_buf` that are left, with `n` buffers from `tbuf` on.
unfoldable pub init_from : (n tbuf prevbuf : ℕ) → Lru → Lru
init_from zero tbuf prevbuf l = l
init_from (suc n) tbuf prevbuf l =
    let cleared = record l { next = update l.next tbuf null; prev = update l.prev tbuf null } in
    init_from n (tbuf + 1) tbuf (
      if prevbuf == null then record cleared { front = tbuf; rear = tbuf } else record cleared {
        next = update cleared.next prevbuf tbuf;
        prev = update cleared.prev tbuf prevbuf;
        front = tbuf;
      })

-- All buffers are cleared, so that each is a clean one of block 0.
unfoldable pub init_buf : Cache → Cache
init_buf c = record c {
  lru = init_from lru_len 1 null c.lru;
  block = λ _ _. 0;
  b_blocknr = λ _. 0;
  b_dev = λ _. null;
  b_dirt = λ _. false;
  b_count = λ _. 0;
}
