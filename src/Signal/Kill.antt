-- ===== src/Signal/Kill.antt =====
-- SIGKILL and SIGSTOP, which no system call can block.
use mathlib.Core.Path.{subst}
use winix.Prelude.{
  ℕ, ◌+◌, ◌-◌, ◌≤◌, ◌<◌, ◌≡◌, ap, sym, ◌∙◌, true, false, Option, some, leb, ◌==◌, arith, Bool-cases,
  ==_iff, inl, inr, ◌⊎◌, bit,
}
use winix.Errno.{Errno}
use winix.Mm.{is_vaddr_ok}
use winix.Signal.{
  SigProc, SigAction, OldAct, nsig, sigkill, sigstop, is_sigpending, do_sigprocmask, do_sigsuspend,
  without_kill, sys_sigaction,
}
use winix.Signal.Sets.{bit-without_kill}
use winix.Signal.Next.{is_sigpending-FirstReady}
use winix.Signal.Procmask.{do_sigprocmask-Masked}
use winix.Signal.Action.{Acted, denied, installed, sys_sigaction-Acted}

-- The two signals are not in the set.
abbrev pub Spares : ℕ → Type 0
Spares set = (bit set sigkill ≡ false) × (bit set sigstop ≡ false)

-- No mask of the process, nor of its handlers, has the two signals.
pub record Unblockable (who : SigProc) : Type 0 where
  pub mask : Spares who.sig_mask
  pub handlers : (i : ℕ) → Spares (who.sig_table i).sa_mask

pub without_kill-Spares : (set : ℕ) → Spares (without_kill set)
without_kill-Spares set = (
  rw (bit-without_kill set sigkill (omega arith)) (ground arith),
  rw (bit-without_kill set sigstop (omega arith)) (ground arith),
)

-- `do_sigprocmask` with an accessible address returns and keeps SIGKILL and SIGSTOP out of the
-- mask and the masks of all handlers, whatever set the caller passes.
pub do_sigprocmask-Unblockable :
    (who : SigProc) (how set oldact : ℕ)
    → is_vaddr_ok oldact who.image ≡ some true
    → Unblockable who
    → (status : Errno) × (old : Option ℕ) × (who' : SigProc) × (do_sigprocmask who how set oldact
        ≡ some (status, old, who'))
      × Unblockable who'
do_sigprocmask-Unblockable who how set oldact accessible u =
    let (status, old, who', e, m) = do_sigprocmask-Masked who how set oldact accessible in
    (
      status,
      old,
      who',
      e,
      record {
        mask = (
          m.mask sigkill (omega arith) ∙ (rw u.mask.0 (ground arith)),
          m.mask sigstop (omega arith) ∙ (rw u.mask.1 (ground arith)),
        );
        handlers = subst (λ w. (i : ℕ) → Spares (w.sig_table i).sa_mask) (sym m.others) u.handlers;
      },
    )

-- `do_sigsuspend` keeps them out as well.
pub do_sigsuspend-Unblockable :
    (who : SigProc) (set : ℕ) → Unblockable who → Unblockable (do_sigsuspend who set).1
unfolding do_sigsuspend
do_sigsuspend-Unblockable who set u =
    let who' = record who { sig_mask2 = who.sig_mask; sig_mask = without_kill set } in
    elim (Bool-cases (is_sigpending who' == 0)) [
      | inl e ↦ rw e (record { mask = without_kill-Spares set; handlers = u.handlers })
      | inr e ↦ rw e (record { mask = without_kill-Spares set; handlers = u.handlers })
    ]

-- In such a process, a pending SIGKILL or SIGSTOP makes `is_sigpending` find a signal, one not
-- greater, whatever the mask.
pub is_sigpending-kill :
    (who : SigProc) (k : ℕ)
    → Unblockable who
    → (k ≡ sigkill) ⊎ (k ≡ sigstop)
    → bit who.sig_pending k ≡ true
    → (1 ≤ is_sigpending who) × (is_sigpending who ≤ k)
is_sigpending-kill who k u is pending = elim (is_sigpending-FirstReady who) [
  | inl (nothing, rest) ↦ absurd (ground (arith, rest k (range.0) (range.1), unblocked))
  | inr (lo, hi, found, rest) ↦ (
    lo,
    elim (Bool-cases (leb (is_sigpending who) k)) [
      | inl le ↦ ground arith
      | inr gt ↦ absurd (ground (arith, rest k range.0 (ground arith), unblocked))
    ],
  )
]
  where
    unblocked : bit who.sig_mask k ≡ false
    unblocked = elim is [ inl e ↦ rw e u.mask.0 | inr e ↦ rw e u.mask.1 ]

    range : (1 ≤ k) × (k < 1 + (nsig - 1))
    range = elim is [
      | inl e ↦ rw e (omega arith, omega arith)
      | inr e ↦ rw e (omega arith, omega arith)
    ]

-- Installing an action keeps them unblocked, also while its handler runs.
Acted-Unblockable :
    {who : SigProc} {signum : ℕ} {act : SigAction} {oact : OldAct} {restorer : ℕ}
    (out : Errno × SigAction × Option SigAction × SigProc)
    → Acted who signum act oact restorer out
    → Unblockable who
    → Unblockable out.3
Acted-Unblockable out (denied e) u = u
Acted-Unblockable {who} {signum} (status, new, old, who')
      (installed e shape mask at others pending rest) u =
    record {
      mask = subst (λ w. Spares w.sig_mask) (sym rest) u.mask;
      handlers = λ i. elim (Bool-cases (i == signum)) [
        | inl is ↦
            let same : i ≡ signum = (==_iff _ _).0 is in
            let here : who'.sig_table i ≡ new = ap who'.sig_table same ∙ at in
            subst (λ a. Spares a.sa_mask) (sym here)
              (mask sigkill (omega arith) ∙ ground arith, mask sigstop (omega arith) ∙ ground arith)
        | inr other ↦ subst (λ a. Spares a.sa_mask) (sym (others i other)) (u.handlers i)
      ];
    }

-- `sys_sigaction` keeps SIGKILL and SIGSTOP out of the mask and out of the masks of all handlers,
-- whatever mask the caller asks for.
pub sys_sigaction-Unblockable :
    (who : SigProc) (signum : ℕ) (act : SigAction) (oact : OldAct) (restorer : ℕ)
    → Unblockable who
    → Unblockable (sys_sigaction who signum act oact restorer).3
sys_sigaction-Unblockable who signum act oact restorer u =
    Acted-Unblockable (sys_sigaction who signum act oact restorer)
      (sys_sigaction-Acted who signum act oact restorer) u
