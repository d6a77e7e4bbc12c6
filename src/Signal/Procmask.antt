-- ===== src/Signal/Procmask.antt =====
-- `do_sigprocmask`: what becomes of each signal of the mask.
use winix.Prelude.{
  ℕ, zero, suc, ◌+◌, ◌-◌, ◌≤◌, ◌<◌, ◌≡◌, refl, ◌∙◌, Bool, true, false, not, ◌&&◌, ◌||◌, Option,
  some, ltb, leb, ◌==◌, if◌then◌else◌, arith, Bool-cases, ==_iff, inl, inr, bit,
}
use winix.Errno.{Errno, ok, einval}
use winix.Mm.{is_vaddr_ok}
use winix.Signal.{
  SigProc, nsig, sigkill, sigstop, sig_block, sig_unblock, sig_setmask, sigismember, sigaddset,
  sigdelset, truth, block_loop, unblock_loop, without_kill, do_sigprocmask,
}
use winix.Signal.Sets.{bit-sigaddset, bit-sigdelset, sigismember-bit, bit-without_kill}

-- One round: signal `i` is added, or taken out, if it is in the set.
round_adds :
    (i set blocked k : ℕ)
    → i < nsig
    → bit (if truth (sigismember set i) then (sigaddset blocked i).1 else blocked) k
      ≡ (bit blocked k || (bit set i && (k == i)))
round_adds i set blocked k valid =
    rw (sigismember-bit set i (omega arith)) (elim (Bool-cases (bit set i)) [
      | inl e ↦ rw (e, bit-sigaddset blocked i k (omega arith)) refl
      | inr e ↦ rw e (ground arith)
    ])

round_drops :
    (i set blocked k : ℕ)
    → i < nsig
    → k < 32
    → bit (if truth (sigismember set i) then (sigdelset blocked i).1 else blocked) k
      ≡ (bit blocked k && not (bit set i && (k == i)))
round_drops i set blocked k valid word =
    rw (sigismember-bit set i (omega arith)) (elim (Bool-cases (bit set i)) [
      | inl e ↦ rw (e, bit-sigdelset blocked i k (omega arith) word) refl
      | inr e ↦ rw e (ground arith)
    ])

-- Signal `k` is in the set, and among the `n` from `i` on.
abbrev pub touched : (n i set k : ℕ) → Bool
touched n i set k = bit set k && leb i k && ltb k (i + n)

-- The first of `n + 1` signals, and the others.
touched_step :
    (n i set k : ℕ) → touched (suc n) i set k ≡ ((bit set i && (k == i)) || touched n (i + 1) set k)
touched_step n i set k = elim (Bool-cases (k == i)) [
  | inl is ↦ let same : k ≡ i = (==_iff _ _).0 is in rw same (ground arith)
  | inr other ↦ ground arith
]

bit-block_loop :
    (n i set blocked k : ℕ)
    → i + n ≤ nsig
    → bit (block_loop n i set blocked) k ≡ (bit blocked k || touched n i set k)
unfolding block_loop
bit-block_loop zero i set blocked k few = ground arith
bit-block_loop (suc n) i set blocked k few =
    let rest =
      bit-block_loop n (i + 1) set
        (if truth (sigismember set i) then (sigaddset blocked i).1 else blocked) k (omega arith) in
    rest ∙ (rw (round_adds i set blocked k (omega arith), touched_step n i set k) (ground arith))

bit-unblock_loop :
    (n i set blocked k : ℕ)
    → i + n ≤ nsig
    → k < 32
    → bit (unblock_loop n i set blocked) k ≡ (bit blocked k && not (touched n i set k))
unfolding unblock_loop
bit-unblock_loop zero i set blocked k few word = ground arith
bit-unblock_loop (suc n) i set blocked k few word =
    let rest =
      bit-unblock_loop n (i + 1) set
        (if truth (sigismember set i) then (sigdelset blocked i).1 else blocked) k (omega arith)
        word in
    rest
    ∙ (rw (round_drops i set blocked k (omega arith) word, touched_step n i set k) (ground arith))

-- What the caller asks for signal `k`: never SIGKILL or SIGSTOP.
abbrev pub asked : (set k : ℕ) → Bool
asked set k = bit set k && not (k == sigkill) && not (k == sigstop)

-- Whether signal `k` is to be blocked, from whether it was.
abbrev pub blocked_after : (how set k : ℕ) → Bool → Bool
blocked_after how set k was =
    let meant = asked set k in
    let valid = leb 1 k && ltb k nsig in
    if how == sig_setmask
    then meant
    else if how == sig_block
    then was || (meant && valid)
    else if how == sig_unblock
    then was && not (meant && valid)
    else was

-- The status, the word at `oldact`, and the process after `do_sigprocmask`.
pub record Masked (who : SigProc) (how set : ℕ) (status : Errno) (old : Option ℕ) (who' : SigProc)
    : Type 0 where
  pub status_is : status ≡ (if ltb how 3 then ok else einval)
  pub old_is : old ≡ some who.sig_mask
  pub others : who' ≡ record who { sig_mask = who'.sig_mask }
  pub mask : (k : ℕ) → k < 32 → bit who'.sig_mask k ≡ blocked_after how set k (bit who.sig_mask k)

module _ (who : SigProc) (how set oldact : ℕ)
    (accessible : is_vaddr_ok oldact who.image ≡ some true) where
  setmask :
      (how == sig_setmask) ≡ true
      → do_sigprocmask who how set oldact
        ≡ some (ok, some who.sig_mask, record who { sig_mask = without_kill set })
  unfolding do_sigprocmask
  setmask e = rw (accessible, do_sigprocmask, e) refl

  block :
      (how == sig_setmask) ≡ false
      → (how == sig_block) ≡ true
      → do_sigprocmask who how set oldact
        ≡ some (
          ok,
          some who.sig_mask,
          record who { sig_mask = block_loop (nsig - 1) 1 (without_kill set) who.sig_mask },
        )
  unfolding do_sigprocmask
  block e e' = rw (accessible, do_sigprocmask, e, e') refl

  unblock :
      (how == sig_setmask) ≡ false
      → (how == sig_block) ≡ false
      → (how == sig_unblock) ≡ true
      → do_sigprocmask who how set oldact
        ≡ some (
          ok,
          some who.sig_mask,
          record who { sig_mask = unblock_loop (nsig - 1) 1 (without_kill set) who.sig_mask },
        )
  unfolding do_sigprocmask
  unblock e e' e'' = rw (accessible, do_sigprocmask, e, e', e'') refl

  unknown :
      (how == sig_setmask) ≡ false
      → (how == sig_block) ≡ false
      → (how == sig_unblock) ≡ false
      → do_sigprocmask who how set oldact ≡ some (einval, some who.sig_mask, who)
  unfolding do_sigprocmask
  unknown e e' e'' = rw (accessible, do_sigprocmask, e, e', e'') refl

-- With an accessible address for the old mask, `do_sigprocmask` writes the old mask there and
-- answers OK for SIG_BLOCK, SIG_UNBLOCK and SIG_SETMASK and EINVAL otherwise; of the process it
-- changes the mask only, and each signal of it as `how` says, but SIGKILL and SIGSTOP are never
-- asked for.
pub do_sigprocmask-Masked :
    (who : SigProc) (how set oldact : ℕ)
    → is_vaddr_ok oldact who.image ≡ some true
    → (status : Errno) × (old : Option ℕ) × (who' : SigProc) × (do_sigprocmask who how set oldact
        ≡ some (status, old, who'))
      × Masked who how set status old who'
do_sigprocmask-Masked who how set oldact accessible =
    let asked_for : (k : ℕ) → k < 32 → bit (without_kill set) k ≡ asked set k =
      λ k word. bit-without_kill set k word in
    elim (Bool-cases (how == sig_setmask)) [
      | inl e ↦ (
        ok,
        some who.sig_mask,
        record who { sig_mask = without_kill set },
        setmask who how set oldact accessible e,
        record {
          status_is = ground arith;
          old_is = refl;
          others = refl;
          mask = λ k word. rw e (asked_for k word);
        },
      )
      | inr e ↦ elim (Bool-cases (how == sig_block)) [
        | inl e' ↦ (
          ok,
          some who.sig_mask,
          record who { sig_mask = block_loop (nsig - 1) 1 (without_kill set) who.sig_mask },
          block who how set oldact accessible e e',
          record {
            status_is = ground arith;
            old_is = refl;
            others = refl;
            mask = λ k word.
                bit-block_loop (nsig - 1) 1 (without_kill set) who.sig_mask k (omega arith)
                ∙ (rw (e, e', asked_for k word) (ground arith));
          },
        )
        | inr e' ↦ elim (Bool-cases (how == sig_unblock)) [
          | inl e'' ↦ (
            ok,
            some who.sig_mask,
            record who { sig_mask = unblock_loop (nsig - 1) 1 (without_kill set) who.sig_mask },
            unblock who how set oldact accessible e e' e'',
            record {
              status_is = ground arith;
              old_is = refl;
              others = refl;
              mask = λ k word.
                  bit-unblock_loop (nsig - 1) 1 (without_kill set) who.sig_mask k (omega arith) word
                  ∙ (rw (e, e', e'', asked_for k word) (ground arith));
            },
          )
          | inr e'' ↦ (
            einval,
            some who.sig_mask,
            who,
            unknown who how set oldact accessible e e' e'',
            record {
              status_is = ground arith;
              old_is = refl;
              others = refl;
              mask = λ k word. rw (e, e', e'') refl;
            },
          )
        ]
      ]
    ]
