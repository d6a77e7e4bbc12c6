-- ===== src/Signal/Next.antt =====
-- `is_sigpending`: the signal that is handled next.
use winix.Prelude.{
  ℕ, zero, suc, ◌+◌, ◌-◌, ◌^◌, ◌≤◌, ◌<◌, ◌≡◌, refl, Bool, true, false, not, ◌&&◌, ◌==◌, arith,
  Bool-cases, ==_iff, inl, inr, ◌⊎◌, bit_and, bit, bit-zero, bit_and-pow_is_zero,
}
use winix.Signal.{SigProc, nsig, is_sigpending, sigpending_from}

-- Signal `k` is pending and not blocked.
abbrev pub ready : (pendings blocked k : ℕ) → Bool
ready pendings blocked k = bit pendings k && not (bit blocked k)

-- The first signal from `i` on among `n` that is ready, or 0.
abbrev pub FirstReady : (i n pendings blocked : ℕ) → ℕ → Type 0
FirstReady i n pendings blocked r =
    ((r ≡ 0) × ((k : ℕ) → i ≤ k → k < i + n → ready pendings blocked k ≡ false))
    ⊎ ((i ≤ r)
        × (r < i + n)
        × (ready pendings blocked r ≡ true)
        × ((k : ℕ) → i ≤ k → k < r → ready pendings blocked k ≡ false))

sigpending_from-FirstReady :
    (n i pendings blocked : ℕ)
    → FirstReady i n pendings blocked (sigpending_from n i pendings blocked)
unfolding sigpending_from
sigpending_from-FirstReady zero i pendings blocked = inl (refl, λ k lo hi. absurd (omega arith))
sigpending_from-FirstReady (suc n) i pendings blocked =
    let p = bit_and-pow_is_zero pendings i in
    let b = bit_and-pow_is_zero blocked i in
    elim (Bool-cases (ready pendings blocked i)) [
      | inl e ↦
          let here : not (bit_and pendings (2 ^ i) == 0) && (bit_and blocked (2 ^ i) == 0) ≡ true =
            rw (p, b) (ground arith) in
          rw here (inr (omega arith, omega arith, e, λ k lo hi. absurd (omega arith)))
      | inr e ↦
          let on : not (bit_and pendings (2 ^ i) == 0) && (bit_and blocked (2 ^ i) == 0) ≡ false =
            rw (p, b) (ground arith) in
          let after : (k : ℕ) → (k == i) ≡ true → ready pendings blocked k ≡ false =
            λ k is. (let same : k ≡ i = (==_iff _ _).0 is in rw same e) in
          rw on (elim (sigpending_from-FirstReady n (i + 1) pendings blocked) [
            | inl (nothing, rest) ↦ inl (
              nothing,
              λ k lo hi. elim (Bool-cases (k == i)) [
                | inl is ↦ after k is
                | inr other ↦ rest k (ground arith) (omega arith)
              ],
            )
            | inr (lo', hi', found, rest) ↦ inr (
              omega arith,
              omega arith,
              found,
              λ k lo hi. elim (Bool-cases (k == i)) [
                | inl is ↦ after k is
                | inr other ↦ rest k (ground arith) hi
              ],
            )
          ])
    ]

-- `is_sigpending` returns the least signal from 1 to 20 that is pending and not blocked, and 0 only
-- if there is none.
pub is_sigpending-FirstReady :
    (who : SigProc) → FirstReady 1 (nsig - 1) who.sig_pending who.sig_mask (is_sigpending who)
unfolding is_sigpending
is_sigpending-FirstReady who = elim (Bool-cases (who.sig_pending == 0)) [
  | inl e ↦
      let nothing : who.sig_pending ≡ 0 = (==_iff _ _).0 e in
      rw e (inl (refl, λ k lo hi. rw (nothing, bit-zero k) refl))
  | inr e ↦ elim (Bool-cases (who.sig_pending == who.sig_mask)) [
    | inl e' ↦
        let same : who.sig_pending ≡ who.sig_mask = (==_iff _ _).0 e' in
        rw (e, e') (inl (refl, λ k lo hi. rw same (ground arith)))
    | inr e' ↦ rw (e, e') (sigpending_from-FirstReady (nsig - 1) 1 who.sig_pending who.sig_mask)
  ]
]
