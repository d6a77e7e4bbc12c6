-- ===== src/Filp/Tests.antt =====
-- A process with descriptors 0, 1 and 3.
use winix.Prelude.{
  ℕ, zero, suc, ◌<◌, ◌≡◌, refl, ◌⊎◌, ◌≤◌, inl, inr, false, Option, none, some, ◌==◌, if◌then◌else◌,
}
use winix.Errno.{Errno, ebadf}
use winix.Filp.{
  Files, zero_file, open_max, unused, is_fd_opened_and_valid, get_fd, first_from, sys_dup,
}
use winix.Filp.Dup.{Duped, sys_dup-Duped}

abbrev slots : ℕ → Option ℕ
slots zero = some 0
slots (suc zero) = some 0
slots (suc (suc (suc zero))) = some 4
slots _ = none

abbrev shell : Files
shell = record {
  fp_filp = slots;
  fd_table = λ i.
      if i == 0
      then record zero_file { filp_count = 2 }
      else if i == 4
      then record zero_file { filp_count = 1 }
      else zero_file;
}

-- The answer, and the count of the file.
abbrev answer : (Errno ⊎ ℕ) × Files → ℕ × ℕ
answer (inl e, fs) = (99, 0)
answer (inr fd, fs) = (fd, (fs.fd_table 4).filp_count)

third_is_doubled : answer (sys_dup shell 3) ≡ (2, 2)
unfolding sys_dup is_fd_opened_and_valid get_fd first_from
third_is_doubled = refl

used : (f : Option ℕ) (file1 : ℕ) → f ≡ some 4 → f ≡ some file1 → unused shell file1 ≡ false
used f file1 at is = let same : file1 ≡ 4 = cc in rw same refl

sys_dup-Duped_example :
    (((open_max ≤ 3) ⊎ (shell.fp_filp 3 ≡ none)) × (sys_dup shell 3 ≡ (inl ebadf, shell)))
    ⊎ ((file1 : ℕ) × (3 < open_max)
        × (shell.fp_filp 3 ≡ some file1)
        × Duped shell file1 (sys_dup shell 3))
sys_dup-Duped_example = sys_dup-Duped shell 3 (λ file1 is. used (shell.fp_filp 3) file1 refl is)
