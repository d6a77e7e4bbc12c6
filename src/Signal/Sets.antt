-- ===== src/Signal/Sets.antt =====
-- The laws of signal sets, bit by bit.
use winix.Prelude.{
  ℕ, ◌-◌, ◌^◌, ◌≤◌, ◌<◌, ◌≡◌, refl, ap, ◌∙◌, true, false, not, ◌&&◌, ◌||◌, some, ◌==◌,
  if◌then◌else◌, arith, Bool-cases, inl, inr, bit_xor, bit, bit-zero, bit-bit_and, bit-bit_or,
  bit-pow, bit-ones, bit-not_pow, bit_and-pow_is_zero,
}
use winix.Signal.{
  nsig, sigkill, sigstop, sigisvalid, sigaddset, sigdelset, sigemptyset, sigfillset, sigismember,
  without_kill,
}

-- The bits of a set after `sigaddset` and `sigdelset` of a valid signal.
pub bit-sigaddset :
    (set signo k : ℕ) → signo ≤ nsig → bit (sigaddset set signo).1 k ≡ (bit set k || (k == signo))
unfolding sigaddset
bit-sigaddset set signo k valid =
    let is : sigisvalid signo ≡ true = ground arith in
    rw (is, bit-bit_or set (2 ^ signo) k, bit-pow signo k) refl

pub bit-sigdelset :
    (set signo k : ℕ)
    → signo ≤ nsig
    → k < 32
    → bit (sigdelset set signo).1 k ≡ (bit set k && not (k == signo))
unfolding sigdelset
bit-sigdelset set signo k valid word =
    let is : sigisvalid signo ≡ true = ground arith in
    rw (is, bit-bit_and set (bit_xor (2 ^ 32 - 1) (2 ^ signo)) k, bit-not_pow 32 signo k word) refl

pub sigismember-bit : (set signo : ℕ) → signo ≤ nsig → sigismember set signo ≡ some (bit set signo)
unfolding sigismember
sigismember-bit set signo valid =
    let is : sigisvalid signo ≡ true = ground arith in
    rw (is, bit_and-pow_is_zero set signo)
      (elim (Bool-cases (bit set signo)) [ inl e ↦ rw e refl | inr e ↦ rw e refl ])

pub bit-without_kill :
    (set k : ℕ)
    → k < 32
    → bit (without_kill set) k ≡ (bit set k && not (k == sigkill) && not (k == sigstop))
unfolding without_kill
bit-without_kill set k word =
    rw
      (
        bit-sigdelset (sigdelset set sigkill).1 sigstop k (omega arith) word,
        bit-sigdelset set sigkill k (omega arith) word,
      )
      (ground arith)

-- For valid signals: `sigaddset` puts its signal into the set and `sigdelset` takes it out, and
-- neither changes whether another signal is a member; every valid signal is a member of the set of
-- `sigfillset`, and none is one of the set of `sigemptyset`.
pub sigismember-laws :
    (set signo k : ℕ)
    → signo ≤ nsig
    → k ≤ nsig
    → (sigismember (sigaddset set signo).1 k
        ≡ (if k == signo then some true else sigismember set k))
      × (sigismember (sigdelset set signo).1 k
          ≡ (if k == signo then some false else sigismember set k))
      × (sigismember sigfillset k ≡ some true)
      × (sigismember sigemptyset k ≡ some false)
sigismember-laws set signo k valid valid' = (
  sigismember-bit (sigaddset set signo).1 k valid' ∙ added,
  sigismember-bit (sigdelset set signo).1 k valid' ∙ deleted,
  sigismember-bit sigfillset k valid' ∙ ap some (bit-ones 22 k ∙ ground arith),
  sigismember-bit sigemptyset k valid' ∙ ap some (bit-zero k),
)
  where
    added :
        some (bit (sigaddset set signo).1 k) ≡ (if k == signo then some true else sigismember set k)
    added =
        rw (bit-sigaddset set signo k valid, sigismember-bit set k valid')
          (elim (Bool-cases (k == signo)) [
            | inl e ↦ rw e (ground arith)
            | inr e ↦ rw e (ground arith)
          ])

    deleted :
        some (bit (sigdelset set signo).1 k)
        ≡ (if k == signo then some false else sigismember set k)
    deleted =
        rw (bit-sigdelset set signo k valid (omega arith), sigismember-bit set k valid')
          (elim (Bool-cases (k == signo)) [
            | inl e ↦ rw e (ground arith)
            | inr e ↦ rw e (ground arith)
          ])
