-- ===== src/Wait/Children.antt =====
-- `do_waitpid`: which child it finds, and what becomes of it.
use winix.Prelude.{
  ℕ, zero, suc, ◌+◌, ◌≤◌, ◌<◌, ◌≡◌, refl, ◌∙◌, ◌⊎◌, inl, inr, Bool, true, false, not, ◌&&◌, ◌||◌,
  ◌==◌, ◌^◌, ◌-◌, ltb, bit_and, if◌then◌else◌, arith, Bool-cases, ==_iff,
}
use winix.Wait.{Table, is_child, passed_over, has_changed, find_child}

-- A child that the call asks for, by the meaning of the pid: a child in use of this parent, which has
-- the pid if that is positive, is of the parent's group for 0, is any for -1, and is of the group
-- -pid below.
abbrev pub asked_for : Table → (parent pid child : ℕ) → Bool
asked_for table parent pid child =
    let e = table child in
    not (bit_and e.flags 1 == 0)
    && (e.parent == parent)
    && (if pid == 0
        then e.procgrp == (table parent).procgrp
        else if ltb pid (2 ^ 31)
        then e.pid == pid
        else if ltb pid (2 ^ 32 - 1)
        then e.procgrp == 2 ^ 32 - pid
        else true)

-- One of these that is a zombie, or is stopped and the options have WUNTRACED.
abbrev pub eligible : Table → (parent pid options child : ℕ) → Bool
eligible table parent pid options child =
    let e = table child in
    asked_for table parent pid child
    && (not (bit_and e.state (2 ^ 31) == 0)
        || (not (bit_and e.state 0x20 == 0) && not (bit_and options 2 == 0)))

asked_for-is_child :
    (table : Table) (parent pid child : ℕ)
    → asked_for table parent pid child
      ≡ (is_child table parent child && not (passed_over table parent pid child))
unfolding is_child passed_over
asked_for-is_child table parent pid child = ground arith

eligible-has_changed :
    (table : Table) (parent pid options child : ℕ)
    → eligible table parent pid options child
      ≡ (asked_for table parent pid child && has_changed table options child)
unfolding has_changed
eligible-has_changed table parent pid options child = ground arith

-- What the loop finds among the `n` processes from `from` on: the first eligible child; or no child
-- is eligible, and the count has grown if and only if some child is asked for.
pub data Search (table : Table) (parent pid options n from children : ℕ) : ℕ ⊎ ℕ → Type 0 where
  found_child :
      (c : ℕ)
      → from ≤ c
      → c < from + n
      → eligible table parent pid options c ≡ true
      → ((j : ℕ) → from ≤ j → j < c → eligible table parent pid options j ≡ false)
      → Search table parent pid options n from children (inl c)
  none_eligible :
      (count : ℕ)
      → ((j : ℕ) → from ≤ j → j < from + n → eligible table parent pid options j ≡ false)
      → children ≤ count
      → (((j : ℕ) → from ≤ j → j < from + n → asked_for table parent pid j ≡ false)
          → count ≡ children)
      → ((j : ℕ) → from ≤ j → j < from + n → asked_for table parent pid j ≡ true → children < count)
      → Search table parent pid options n from children (inr count)

module _ (table : Table) (parent pid options : ℕ) where
  not_here :
      (n from : ℕ) {children more : ℕ} {out : ℕ ⊎ ℕ}
      → eligible table parent pid options from ≡ false
      → ((asked_for table parent pid from ≡ false) × (more ≡ children))
        ⊎ ((asked_for table parent pid from ≡ true) × (more ≡ children + 1))
      → Search table parent pid options n (from + 1) more out
      → Search table parent pid options (suc n) from children out
  not_here n from e counted (found_child c lo hi is before) =
      found_child c (omega arith) (omega arith) is (λ j lo' hi'. elim (Bool-cases (j == from)) [
        | inl here ↦ let same : j ≡ from = (==_iff _ _).0 here in rw same e
        | inr other ↦ before j (ground arith) hi'
      ])
  not_here n from {children} {more} e counted
        (none_eligible count none_is grown same_count counts) =
      none_eligible count
        (λ j lo hi. elim (Bool-cases (j == from)) [
          | inl here ↦ let same : j ≡ from = (==_iff _ _).0 here in rw same e
          | inr other ↦ none_is j (ground arith) (omega arith)
        ])
        (elim counted [
          | inl (a, c) ↦ omega (arith, c, grown)
          | inr (a, c) ↦ omega (arith, c, grown)
        ])
        (λ none_asked. elim counted [
          | inl (a, c) ↦ same_count (λ j lo hi. none_asked j (omega arith) (omega arith)) ∙ c
          | inr (a, c) ↦ absurd (ground (arith, none_asked from (omega arith) (omega arith)))
        ])
        (λ j lo hi on. elim counted [
          | inl (a, c) ↦ elim (Bool-cases (j == from)) [
            | inl here ↦ absurd (off_here j a here on)
            | inr other ↦ let lt = counts j (ground arith) (omega arith) on in omega (arith, lt, c)
          ]
          | inr (a, c) ↦ omega (arith, grown, c)
        ])
    where
      off_here :
          (j : ℕ)
          → asked_for table parent pid from ≡ false
          → (j == from) ≡ true
          → asked_for table parent pid j ≡ true
          → ⊥
      off_here j off here on = let same : j ≡ from = (==_iff _ _).0 here in cc

  pub find_child-Search :
      (n from children : ℕ)
      → Search table parent pid options n from children
          (find_child table parent pid options n from children)
  unfolding find_child
  find_child-Search zero from children =
      none_eligible children (λ j lo hi. absurd (omega arith)) (omega arith) (λ _. refl)
        (λ j lo hi on. absurd (omega arith))
  find_child-Search (suc n) from children =
      let skipped = find_child-Search n (from + 1) children in
      let counted = find_child-Search n (from + 1) (children + 1) in
      let asked = asked_for-is_child table parent pid from in
      let changed = eligible-has_changed table parent pid options from in
      elim (Bool-cases (is_child table parent from)) [
        | inr e ↦
            let off : asked_for table parent pid from ≡ false = asked ∙ rw e refl in
            rw e (not_here n from (changed ∙ rw off refl) (inl (off, refl)) skipped)
        | inl e ↦ elim (Bool-cases (passed_over table parent pid from)) [
          | inl e' ↦
              let off : asked_for table parent pid from ≡ false = asked ∙ rw (e, e') refl in
              rw (e, e') (not_here n from (changed ∙ rw off refl) (inl (off, refl)) skipped)
          | inr e' ↦
              let on : asked_for table parent pid from ≡ true = asked ∙ rw (e, e') refl in
              elim (Bool-cases (has_changed table options from)) [
                | inl e'' ↦
                    rw (e, e', e'')
                      (found_child from (omega arith) (omega arith) (changed ∙ rw (on, e'') refl)
                        (λ j lo hi. absurd (omega arith)))
                | inr e'' ↦
                    rw (e, e', e'')
                      (not_here n from (changed ∙ rw (on, e'') refl) (inr (on, refl)) counted)
              ]
        ]
      ]
