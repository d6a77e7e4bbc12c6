-- ===== src/Filp/Dup.antt =====
-- `sys_dup`: a second descriptor for an open file.
use mathlib.Core.Path.{subst}
use winix.Prelude.{
  ℕ, ◌+◌, ◌≤◌, ◌<◌, ◌≡◌, refl, sym, ◌∙◌, ◌⊎◌, inl, inr, true, false, Option, none, some, leb, ◌==◌,
  arith, Bool-cases, ==_iff,
}
use winix.Errno.{Errno, ebadf, emfile, enfile}
use winix.Filp.{
  Files, zero_file, open_max, nr_filps, is_free, unused, set_file, get_fd, is_fd_opened_and_valid,
  dup_answer, sys_dup,
}
use winix.Filp.Free.{Got, got, no_slot, no_file, get_fd-Got}

-- After `sys_dup` on `file1`: the lowest free descriptor is open on the file too, whose count is one
-- more; the other descriptors, and the counts of the other files, are as they were. Or there is no
-- free descriptor, or no free entry, and nothing has changed.
pub data Duped (fs : Files) (file1 : ℕ) : (Errno ⊎ ℕ) × Files → Type 0 where
  duped :
      {fs' : Files} (slot : ℕ)
      → slot < open_max
      → is_free (fs.fp_filp slot) ≡ true
      → ((j : ℕ) → j < slot → is_free (fs.fp_filp j) ≡ false)
      → fs'.fp_filp slot ≡ some file1
      → ((j : ℕ) → (j == slot) ≡ false → fs'.fp_filp j ≡ fs.fp_filp j)
      → fs'.fd_table file1
        ≡ record (fs.fd_table file1) { filp_count = (fs.fd_table file1).filp_count + 1 }
      → ((g : ℕ) → (g == file1) ≡ false → (fs'.fd_table g).filp_count ≡ (fs.fd_table g).filp_count)
      → Duped fs file1 (inr slot, fs')
  no_free_slot :
      ((j : ℕ) → j < open_max → is_free (fs.fp_filp j) ≡ false) → Duped fs file1 (inl emfile, fs)
  no_free_file : ((j : ℕ) → j < nr_filps → unused fs j ≡ false) → Duped fs file1 (inl enfile, fs)

answered :
    (fs : Files) (file1 : ℕ) {out : (Errno ⊎ (ℕ × ℕ)) × Files}
    → unused fs file1 ≡ false
    → Got fs 0 out
    → Duped fs file1 (dup_answer file1 out)
answered fs file1 in_use (no_slot none_free) = no_free_slot (λ j lt. none_free j (omega arith) lt)
answered fs file1 in_use (no_file none_free) = no_free_file none_free
answered fs file1 in_use (got slot f lo hi free lowest f_low f_free f_lowest) =
    let here : (slot == slot) ≡ true = ground arith in
    let file_here : (file1 == file1) ≡ true = ground arith in
    let other : (file1 == f) ≡ false = differ (Bool-cases (file1 == f)) in
    duped slot hi free (λ j lt. lowest j (omega arith) lt) (rw here refl) (λ j ne. rw ne refl)
      (rw (file_here, other) refl) (λ g ne. rw ne (count g (Bool-cases (g == f))))
  where
    differ : ((file1 == f) ≡ true) ⊎ ((file1 == f) ≡ false) → (file1 == f) ≡ false
    differ (inl e) = let same : file1 ≡ f = (==_iff _ _).0 e in cc
    differ (inr e) = e

    count :
        (g : ℕ)
        → ((g == f) ≡ true) ⊎ ((g == f) ≡ false)
        → ((set_file fs f (record zero_file { filp_table_index = f })).fd_table g).filp_count
          ≡ (fs.fd_table g).filp_count
    count g (inl e) =
        let same : g ≡ f = (==_iff _ _).0 e in rw (e, same) (sym ((==_iff _ _).0 f_free))
    count g (inr e) = rw e refl

module _ (fs : Files) (oldfd : ℕ) where
  bad_fd : leb open_max oldfd ≡ true → is_fd_opened_and_valid fs oldfd ≡ none
  unfolding is_fd_opened_and_valid
  bad_fd e = rw e refl

  good_fd : leb open_max oldfd ≡ false → is_fd_opened_and_valid fs oldfd ≡ fs.fp_filp oldfd
  unfolding is_fd_opened_and_valid
  good_fd e = rw e refl

  sys_dup_refuses : is_fd_opened_and_valid fs oldfd ≡ none → sys_dup fs oldfd ≡ (inl ebadf, fs)
  unfolding sys_dup
  sys_dup_refuses e = rw (e, sys_dup) refl

  sys_dup_accepts :
      {file1 : ℕ}
      → is_fd_opened_and_valid fs oldfd ≡ some file1
      → sys_dup fs oldfd ≡ dup_answer file1 (get_fd fs 0)
  unfolding sys_dup
  sys_dup_accepts e = rw (e, sys_dup) refl

-- If the file of an open descriptor is in use: `sys_dup` of a descriptor that is OPEN_MAX or more, or
-- open on no file, answers EBADF and changes nothing; of one that is open, it opens the lowest free descriptor on the same
-- file and counts it, and leaves the other descriptors and counts, or fails with nothing changed as
-- there is no free descriptor or no free entry.
pub sys_dup-Duped :
    (fs : Files) (oldfd : ℕ)
    → ((file1 : ℕ) → fs.fp_filp oldfd ≡ some file1 → unused fs file1 ≡ false)
    → (((open_max ≤ oldfd) ⊎ (fs.fp_filp oldfd ≡ none)) × (sys_dup fs oldfd ≡ (inl ebadf, fs)))
      ⊎ ((file1 : ℕ) × (oldfd < open_max)
          × (fs.fp_filp oldfd ≡ some file1)
          × Duped fs file1 (sys_dup fs oldfd))
sys_dup-Duped fs oldfd used = elim (Bool-cases (leb open_max oldfd)) [
  | inl e ↦ inl (inl (ground arith), sys_dup_refuses fs oldfd (bad_fd fs oldfd e))
  | inr e ↦ go (fs.fp_filp oldfd) refl (good_fd fs oldfd e) (ground arith)
]
  where
    go :
        (o : Option ℕ)
        → fs.fp_filp oldfd ≡ o
        → is_fd_opened_and_valid fs oldfd ≡ fs.fp_filp oldfd
        → oldfd < open_max
        → (((open_max ≤ oldfd) ⊎ (fs.fp_filp oldfd ≡ none)) × (sys_dup fs oldfd ≡ (inl ebadf, fs)))
          ⊎ ((file1 : ℕ) × (oldfd < open_max)
              × (fs.fp_filp oldfd ≡ some file1)
              × Duped fs file1 (sys_dup fs oldfd))
    go none is e low = inl (inr is, sys_dup_refuses fs oldfd (e ∙ is))
    go (some file1) is e low = inr (
      file1,
      low,
      is,
      subst (Duped fs file1) (sym (sys_dup_accepts fs oldfd (e ∙ is)))
          (answered fs file1 (used file1 is) (get_fd-Got fs 0 (omega arith))),
    )
