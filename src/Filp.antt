-- ===== src/Filp.antt =====
-- fs/filp.c and dup(2) of fs/system/dup.c: the table of open files and a process's descriptors. A
-- `filp_t *` is the index of its entry in `fd_table`, and `none` is NULL; pointers to other things
-- are numbers, NULL is 0.
pub mod Free
pub mod Dup
mod Tests
use winix.Prelude.{
  ℕ, zero, suc, ◌+◌, ◌-◌, ◌⊎◌, inl, inr, Bool, true, false, not, ◌&&◌, ◌||◌, Option, none, some,
  ltb, leb, ◌==◌, if◌then◌else◌,
}
use winix.Errno.{Errno, ok, ebadf, emfile, enfile}

abbrev pub open_max : ℕ
open_max = 16

abbrev pub nr_filps : ℕ
nr_filps = 32

pub record File : Type 0 where
  pub filp_mode : ℕ
  pub filp_flags : ℕ
  pub filp_count : ℕ
  pub filp_ino : ℕ
  pub filp_pos : ℕ
  pub filp_dev : ℕ
  pub pipe_mode : ℕ
  pub pipe : ℕ
  pub filp_table_index : ℕ
  pub getdents_zone_nr : ℕ
  pub getdents_dirstream_nr : ℕ
  pub private : ℕ

-- An entry after `memset(f, 0, sizeof(struct filp))`.
abbrev pub zero_file : File
zero_file = record {
  filp_mode = 0;
  filp_flags = 0;
  filp_count = 0;
  filp_ino = 0;
  filp_pos = 0;
  filp_dev = 0;
  pipe_mode = 0;
  pipe = 0;
  filp_table_index = 0;
  getdents_zone_nr = 0;
  getdents_dirstream_nr = 0;
  private = 0;
}

-- The descriptors of one process, and the table of all files.
pub record Files : Type 0 where
  pub fp_filp : ℕ → Option ℕ
  pub fd_table : ℕ → File

abbrev pub set_slot : Files → ℕ → Option ℕ → Files
set_slot fs i f = record fs { fp_filp = λ j. if j == i then f else fs.fp_filp j }

abbrev pub set_file : Files → ℕ → File → Files
set_file fs i f = record fs { fd_table = λ j. if j == i then f else fs.fd_table j }

abbrev pub is_free : Option ℕ → Bool
is_free none = true
is_free (some f) = false

-- The first place from `i` on, among `n`, that passes the test.
unfoldable pub first_from : (ℕ → Bool) → (n i : ℕ) → Option ℕ
first_from test zero i = none
first_from test (suc n) i = let rest = first_from test n (i + 1) in if test i then some i else rest

abbrev pub unused : Files → ℕ → Bool
unused fs i = (fs.fd_table i).filp_count == 0

-- What the two loops of `get_fd` found: the open slot and the free entry, which is cleared, or the
-- error of the first one that found nothing.
abbrev pub found_fd : Files → (open_slot fpt : Option ℕ) → (Errno ⊎ (ℕ × ℕ)) × Files
found_fd fs none _ = (inl emfile, fs)
found_fd fs (some open_slot) none = (inl enfile, fs)
found_fd fs (some open_slot) (some f) =
    (inr (open_slot, f), set_file fs f (record zero_file { filp_table_index = f }))

unfoldable pub get_fd : Files → (start : ℕ) → (Errno ⊎ (ℕ × ℕ)) × Files
get_fd fs start =
    found_fd fs (first_from (λ i. is_free (fs.fp_filp i)) (open_max - start) start)
      (first_from (unused fs) nr_filps 0)

unfoldable pub init_filp_by_inode : Files → (filp inode i_dev : ℕ) → Files
init_filp_by_inode fs filp inode i_dev =
    let f = fs.fd_table filp in
    set_file fs filp
      (record f { filp_ino = inode; filp_count = f.filp_count + 1; filp_dev = i_dev })

unfoldable pub release_filp : Files → ℕ → Files
release_filp fs file = set_file fs file (record (fs.fd_table file) { filp_count = 0 })

unfoldable pub find_filp : Files → (inode : ℕ) → Option ℕ
find_filp fs inode = first_from (λ i. (fs.fd_table i).filp_ino == inode) nr_filps 0

unfoldable pub get_free_filp : Files → Option ℕ
get_free_filp fs = first_from (unused fs) nr_filps 0

-- The loop of `init_filp`, which counts `i` up twice in each round: `n` rounds are left.
unfoldable pub init_loop : (n i : ℕ) → Files → Files
init_loop zero i fs = fs
init_loop (suc n) i fs =
    init_loop n (i + 2)
      (set_file fs i (record (fs.fd_table i) { filp_count = 0; filp_table_index = i }))

unfoldable pub init_filp : Files → Files
unfolding init_loop
init_filp fs = init_loop 16 0 fs

-- The file on which a descriptor is open; a negative descriptor is a large word.
unfoldable pub is_fd_opened_and_valid : Files → ℕ → Option ℕ
is_fd_opened_and_valid fs fd = if leb open_max fd then none else fs.fp_filp fd

-- What `sys_dup` of a descriptor that is open on `file1` makes of the answer of `get_fd`.
abbrev pub dup_answer : (file1 : ℕ) → (Errno ⊎ (ℕ × ℕ)) × Files → (Errno ⊎ ℕ) × Files
dup_answer file1 (inl ret, fs) = (inl ret, fs)
dup_answer file1 (inr (open_slot, file2), fs) =
    let f = fs.fd_table file1 in
    (
      inr open_slot,
      set_file (set_slot fs open_slot (some file1)) file1
          (record f { filp_count = f.filp_count + 1 }),
    )

unfoldable pub sys_dup : Files → (oldfd : ℕ) → (Errno ⊎ ℕ) × Files
sys_dup fs oldfd = elim (is_fd_opened_and_valid fs oldfd) [
  | none ↦ (inl ebadf, fs)
  | some file1 ↦ dup_answer file1 (get_fd fs 0)
]
