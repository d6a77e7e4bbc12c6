-- ===== src/Filp/Free.antt =====
-- `get_fd`: the lowest free descriptor and a free entry of the table.
use winix.Prelude.{
  ℕ, zero, suc, ◌+◌, ◌-◌, ◌≤◌, ◌<◌, ◌≡◌, ◌⊎◌, inl, inr, Bool, true, false, Option, none, some, ◌==◌,
  arith, Bool-cases, ==_iff,
}
use winix.Errno.{Errno, emfile, enfile}
use winix.Filp.{
  Files, first_from, open_max, nr_filps, is_free, unused, zero_file, set_file, found_fd, get_fd,
}

-- The first place from `i` on, among `n`, that passes the test, or none.
pub data FirstFrom (test : ℕ → Bool) (n i : ℕ) : Option ℕ → Type 0 where
  at :
      (k : ℕ)
      → i ≤ k
      → k < i + n
      → test k ≡ true
      → ((j : ℕ) → i ≤ j → j < k → test j ≡ false)
      → FirstFrom test n i (some k)
  nowhere : ((j : ℕ) → i ≤ j → j < i + n → test j ≡ false) → FirstFrom test n i none

later :
    (test : ℕ → Bool) (n i : ℕ) {out : Option ℕ}
    → test i ≡ false
    → FirstFrom test n (i + 1) out
    → FirstFrom test (suc n) i out
later test n i e (at k lo hi hit before) = at k (omega arith) (omega arith) hit (λ j lo' hi'.
    elim (Bool-cases (j == i)) [
      | inl is ↦ let same : j ≡ i = (==_iff _ _).0 is in rw same e
      | inr other ↦ before j (ground arith) hi'
    ])
later test n i e (nowhere none_fits) = nowhere (λ j lo hi. elim (Bool-cases (j == i)) [
  | inl is ↦ let same : j ≡ i = (==_iff _ _).0 is in rw same e
  | inr other ↦ none_fits j (ground arith) (omega arith)
])

pub first_from-FirstFrom : (test : ℕ → Bool) (n i : ℕ) → FirstFrom test n i (first_from test n i)
unfolding first_from
first_from-FirstFrom test zero i = nowhere (λ j lo hi. absurd (omega arith))
first_from-FirstFrom test (suc n) i = elim (Bool-cases (test i)) [
  | inl e ↦ rw e (at i (omega arith) (omega arith) e (λ j lo hi. absurd (omega arith)))
  | inr e ↦ rw e (later test n i e (first_from-FirstFrom test n (i + 1)))
]

-- What `get_fd` found: the lowest free descriptor from `start` on and the first unused entry, which
-- is cleared; or it lacks one of them, and nothing has changed.
pub data Got (fs : Files) (start : ℕ) : (Errno ⊎ (ℕ × ℕ)) × Files → Type 0 where
  got :
      (slot f : ℕ)
      → start ≤ slot
      → slot < open_max
      → is_free (fs.fp_filp slot) ≡ true
      → ((j : ℕ) → start ≤ j → j < slot → is_free (fs.fp_filp j) ≡ false)
      → f < nr_filps
      → unused fs f ≡ true
      → ((j : ℕ) → j < f → unused fs j ≡ false)
      → Got fs start (inr (slot, f), set_file fs f (record zero_file { filp_table_index = f }))
  no_slot :
      ((j : ℕ) → start ≤ j → j < open_max → is_free (fs.fp_filp j) ≡ false)
      → Got fs start (inl emfile, fs)
  no_file : ((j : ℕ) → j < nr_filps → unused fs j ≡ false) → Got fs start (inl enfile, fs)

-- For a start among the descriptors, `get_fd` finds the lowest free descriptor from there on and the
-- first unused entry, which it clears; it answers EMFILE if there is no such descriptor and ENFILE
-- if all entries are in use, with nothing changed.
pub get_fd-Got : (fs : Files) (start : ℕ) → start ≤ open_max → Got fs start (get_fd fs start)
unfolding get_fd
get_fd-Got fs start low =
    choose (first_from-FirstFrom (λ i. is_free (fs.fp_filp i)) (open_max - start) start)
      (first_from-FirstFrom (unused fs) nr_filps 0)
  where
    choose :
        {slot f : Option ℕ}
        → FirstFrom (λ i. is_free (fs.fp_filp i)) (open_max - start) start slot
        → FirstFrom (unused fs) nr_filps 0 f
        → Got fs start (found_fd fs slot f)
    choose (nowhere none_fits) _ = no_slot (λ j lo hi. none_fits j lo (omega (arith, hi, low)))
    choose (at slot lo hi hit before) (nowhere none_fits) =
        no_file (λ j hi'. none_fits j (omega arith) (omega (arith, hi')))
    choose (at slot lo hi hit before) (at f lo' hi' hit2 before') =
        got slot f lo (omega (arith, hi, low)) hit before (omega (arith, hi')) hit2
          (λ j lt. before' j (omega arith) lt)
