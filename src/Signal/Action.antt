-- ===== src/Signal/Action.antt =====
-- `sys_sigaction`: what it refuses and what it installs.
use winix.Prelude.{
  ℕ, ◌<◌, ◌≡◌, refl, Bool, true, false, not, ◌&&◌, ◌||◌, Option, none, ltb, leb, ◌==◌, arith,
  Bool-cases, inl, inr, bit,
}
use winix.Errno.{Errno, ok, einval}
use winix.Signal.{
  SigProc, SigAction, OldAct, nsig, sigkill, sigstop, sigsegv, sig_ign, sigdelset, without_kill,
  copied_over, set_action, install, sys_sigaction, left_at,
}
use winix.Signal.Sets.{bit-sigdelset, bit-without_kill}

-- The guards of `sys_sigaction`.
abbrev pub refused : (signum handler : ℕ) → Bool
refused signum handler =
    ltb signum 1
    || leb nsig signum
    || (signum == sigkill)
    || (signum == sigstop)
    || ((handler == sig_ign) && (signum == sigsegv))

-- What `sys_sigaction` did: it refuses a signal that is none, SIGKILL, SIGSTOP, and to ignore
-- SIGSEGV; otherwise it installs the action without the two in its mask (or, when `oact` points at
-- `act`, the old action again), drops the signal if it is pending and ignored from now on, and
-- changes nothing else but the restorer.
pub data Acted (who : SigProc) (signum : ℕ) (act : SigAction) (oact : OldAct) (restorer : ℕ)
    : Errno × SigAction × Option SigAction × SigProc → Type 0 where
  denied :
      refused signum act.sa_handler ≡ true
      → Acted who signum act oact restorer (einval, act, none, who)
  installed :
      {new : SigAction} {who' : SigProc}
      → refused signum act.sa_handler ≡ false
      → new ≡ record (copied_over oact (who.sig_table signum) act) { sa_mask = new.sa_mask }
      → ((k : ℕ)
          → k < 32
          → bit new.sa_mask k ≡ (
              bit (copied_over oact (who.sig_table signum) act).sa_mask k
              && not (k == sigkill)
              && not (k == sigstop)))
      → who'.sig_table signum ≡ new
      → ((i : ℕ) → (i == signum) ≡ false → who'.sig_table i ≡ who.sig_table i)
      → ((k : ℕ)
          → k < 32
          → bit who'.sig_pending k
            ≡ (bit who.sig_pending k && not ((act.sa_handler == sig_ign) && (k == signum))))
      → who' ≡ record who {
        sig_table = who'.sig_table;
        sig_pending = who'.sig_pending;
        sa_restorer = restorer;
      }
      → Acted who signum act oact restorer (ok, new, left_at oact (who.sig_table signum) new, who')

module _ (who : SigProc) (signum : ℕ) (act : SigAction) (oact : OldAct) (restorer : ℕ) where
  sys_sigaction_denied :
      refused signum act.sa_handler ≡ true
      → sys_sigaction who signum act oact restorer ≡ (einval, act, none, who)
  unfolding sys_sigaction
  sys_sigaction_denied e = ground arith

  sys_sigaction_ignores :
      refused signum act.sa_handler ≡ false
      → (act.sa_handler == sig_ign) ≡ true
      → sys_sigaction who signum act oact restorer
        ≡ install
            (record who { sig_pending = (sigdelset who.sig_pending signum).1 })
            signum
            act
            oact
            restorer
  unfolding sys_sigaction
  sys_sigaction_ignores e ign = ground arith

  sys_sigaction_installs :
      refused signum act.sa_handler ≡ false
      → (act.sa_handler == sig_ign) ≡ false
      → sys_sigaction who signum act oact restorer ≡ install who signum act oact restorer
  unfolding sys_sigaction
  sys_sigaction_installs e ign = ground arith

  -- `sys_sigaction` refuses numbers outside 1 to 20, SIGKILL, SIGSTOP, and to ignore SIGSEGV, with
  -- nothing changed; otherwise it installs the action without SIGKILL and SIGSTOP in its mask (the
  -- old action, when `oact` points at `act`), leaves the other actions, drops the signal if it is
  -- pending and now ignored, sets the restorer, and changes nothing else.
  pub sys_sigaction-Acted :
      Acted who signum act oact restorer (sys_sigaction who signum act oact restorer)
  unfolding install set_action
  sys_sigaction-Acted =
      let copied = copied_over oact (who.sig_table signum) act in
      let cleaned : (k : ℕ)
          → k < 32
          → bit (without_kill copied.sa_mask) k
            ≡ (bit copied.sa_mask k && not (k == sigkill) && not (k == sigstop)) =
        λ k word. bit-without_kill copied.sa_mask k word in
      let at_signum : (signum == signum) ≡ true = ground arith in
      elim (Bool-cases (refused signum act.sa_handler)) [
        | inl e ↦ rw (sys_sigaction_denied e) (denied e)
        | inr e ↦ elim (Bool-cases (act.sa_handler == sig_ign)) [
          | inl ign ↦ rw (sys_sigaction_ignores e ign) (
              installed e refl cleaned (rw at_signum refl) (λ i other. rw other refl)
                (λ k word. rw ign (bit-sigdelset who.sig_pending signum k (ground arith) word))
                refl)
          | inr ign ↦ rw (sys_sigaction_installs e ign) (
              installed e refl cleaned (rw at_signum refl) (λ i other. rw other refl)
                (λ k word. rw ign (ground arith)) refl)
        ]
      ]
