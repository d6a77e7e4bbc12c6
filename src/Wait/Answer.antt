-- ===== src/Wait/Answer.antt =====
-- `do_waitpid`: what it answers on every branch.
use mathlib.Core.Path.{subst}
use winix.Prelude.{
  ℕ, ◌-◌, ◌^◌, ◌≤◌, ◌<◌, ◌≡◌, refl, sym, ◌⊎◌, inl, inr, true, false, ◌==◌, arith, Bool-cases,
  bit_or,
}
use winix.Wait.{
  Table, wait_end, do_waitpid, release_zombie, get_wstats, num_procs, has_flag, state_zombie,
  state_waiting, wnohang, WaitAnswer, reaped, nothing_yet, no_children, suspended, set_entry,
}
use winix.Wait.Children.{Search, found_child, none_eligible, find_child-Search, asked_for, eligible}

-- What `do_waitpid` did. A child that it reports is the first eligible one. A zombie's entry is freed,
-- and the answer is the pid 0 of the freed entry; a stopped child stays, and the answer is its pid.
pub data Waited (table : Table) (parent pid options : ℕ) : WaitAnswer × Table → Type 0 where
  zombie_child :
      (c : ℕ)
      → 1 ≤ c
      → c ≤ num_procs
      → eligible table parent pid options c ≡ true
      → ((j : ℕ) → 1 ≤ j → j < c → eligible table parent pid options j ≡ false)
      → has_flag (table c).state state_zombie ≡ true
      → Waited table parent pid options (
        reaped 0 (get_wstats (table c)),
        set_entry table c (record (table c) { flags = 0; pid = 0; state = 2 ^ 32 - 1 }),
      )
  stopped_child :
      (c : ℕ)
      → 1 ≤ c
      → c ≤ num_procs
      → eligible table parent pid options c ≡ true
      → ((j : ℕ) → 1 ≤ j → j < c → eligible table parent pid options j ≡ false)
      → has_flag (table c).state state_zombie ≡ false
      → Waited table parent pid options (reaped (table c).pid (get_wstats (table c)), table)
  not_yet :
      ((j : ℕ) → 1 ≤ j → j ≤ num_procs → eligible table parent pid options j ≡ false)
      → has_flag options wnohang ≡ true
      → Waited table parent pid options (nothing_yet, table)
  childless :
      ((j : ℕ) → 1 ≤ j → j ≤ num_procs → asked_for table parent pid j ≡ false)
      → has_flag options wnohang ≡ false
      → Waited table parent pid options (no_children, table)
  waits :
      ((j : ℕ) → 1 ≤ j → j ≤ num_procs → eligible table parent pid options j ≡ false)
      → ¬ ((j : ℕ) → 1 ≤ j → j ≤ num_procs → asked_for table parent pid j ≡ false)
      → has_flag options wnohang ≡ false
      → Waited table parent pid options (
        suspended,
        set_entry table parent (record (table parent) {
          wpid = pid;
          woptions = options;
          state = bit_or (table parent).state state_waiting;
        }),
      )

module _ (table : Table) (parent pid options : ℕ) where
  end_zombie :
      (c : ℕ)
      → has_flag (table c).state state_zombie ≡ true
      → wait_end table parent pid options (inl c) ≡ (
        reaped 0 (get_wstats (table c)),
        set_entry table c (record (table c) { flags = 0; pid = 0; state = 2 ^ 32 - 1 }),
      )
  unfolding wait_end release_zombie
  end_zombie c e = let here : (c == c) ≡ true = ground arith in rw (e, here) refl

  end_stopped :
      (c : ℕ)
      → has_flag (table c).state state_zombie ≡ false
      → wait_end table parent pid options (inl c)
        ≡ (reaped (table c).pid (get_wstats (table c)), table)
  unfolding wait_end release_zombie
  end_stopped c e = rw e refl

  ended :
      {out : ℕ ⊎ ℕ}
      → Search table parent pid options num_procs 1 0 out
      → Waited table parent pid options (wait_end table parent pid options out)
  unfolding wait_end
  ended (found_child c lo hi is before) =
      elim (Bool-cases (has_flag (table c).state state_zombie)) [
        | inl e ↦
            subst (Waited table parent pid options) (sym (end_zombie c e))
              (zombie_child c lo (omega arith) is before e)
        | inr e ↦
            subst (Waited table parent pid options) (sym (end_stopped c e))
              (stopped_child c lo (omega arith) is before e)
      ]
  ended (none_eligible count none_is grown same_count counts) =
      elim (Bool-cases (has_flag options wnohang)) [
        | inl e ↦ rw e (not_yet (λ j lo hi. none_is j lo (omega arith)) e)
        | inr e ↦ elim (Bool-cases (count == 0)) [
          | inl z ↦
              rw (e, z)
                (childless
                  (λ j lo hi. elim (Bool-cases (asked_for table parent pid j)) [
                    | inl on ↦
                        let more = counts j lo (omega arith) on in absurd (ground (arith, more))
                    | inr off ↦ off
                  ])
                  e)
          | inr nz ↦
              rw (e, nz)
                (waits (λ j lo hi. none_is j lo (omega arith))
                  (λ none_asked.
                    ground (arith, same_count (λ j lo hi. none_asked j lo (omega arith))))
                  e)
        ]
      ]

  -- On every process table, `do_waitpid` reports the first child, in the order of the table, that is
  -- asked for and is a zombie, or stopped under WUNTRACED; a zombie's entry is freed, and the pid in
  -- the answer is then 0. If there is none it answers OK under WNOHANG, ECHILD if no child is asked
  -- for, and otherwise has the parent wait; nothing else of the table changes.
  pub do_waitpid-Waited : Waited table parent pid options (do_waitpid table parent pid options)
  unfolding do_waitpid
  do_waitpid-Waited = ended (find_child-Search table parent pid options num_procs 1 0)
