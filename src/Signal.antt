-- ===== src/Signal.antt =====
-- Signal sets (lib/posix/_sigset.c), the choice of the next signal (kernel/signal.c) and the system
-- calls that change a process's masks and actions (kernel/system/do_sigaction.c, do_sigprocmask.c,
-- do_sigpending.c, do_sigsuspend.c). A `sigset_t` is a 32-bit word, bit `n` for signal `n`; a
-- signal number is the word of an `int`, so that a negative one is large.
pub mod Sets
pub mod Next
pub mod Procmask
pub mod Action
pub mod Kill
mod Tests
use winix.Prelude.{
  ℕ, zero, suc, ◌+◌, ◌-◌, ◌^◌, Bool, true, false, not, ◌&&◌, ◌||◌, Option, none, some, ltb, leb,
  ◌==◌, if◌then◌else◌, bit_and, bit_or, bit_xor,
}
use winix.Errno.{Errno, ok, err, einval, eintr, eacces}
use winix.Mm.{Image, is_vaddr_ok}

abbrev pub nsig : ℕ
nsig = 21

abbrev pub sigkill : ℕ
sigkill = 9

abbrev pub sigsegv : ℕ
sigsegv = 11

abbrev pub sigstop : ℕ
sigstop = 17

abbrev pub sig_dfl : ℕ
sig_dfl = 0

abbrev pub sig_ign : ℕ
sig_ign = 1

abbrev pub sa_resethand : ℕ
sa_resethand = 2

-- The mask of the valid signals, `((1 << _NSIG) << 1) - 1`.
abbrev pub sigmask : ℕ
sigmask = 2 ^ (nsig + 1) - 1

abbrev pub sigisvalid : ℕ → Bool
sigisvalid signo = leb signo nsig

-- The functions on sets return -1 with `errno` set to EINVAL (`einval` here) or 0 (`ok`).
unfoldable pub sigaddset : ℕ → ℕ → Errno × ℕ
sigaddset set signo = if sigisvalid signo then (ok, bit_or set (2 ^ signo)) else (einval, set)

unfoldable pub sigdelset : ℕ → ℕ → Errno × ℕ
sigdelset set signo =
    if sigisvalid signo then (ok, bit_and set (bit_xor (2 ^ 32 - 1) (2 ^ signo))) else (einval, set)

abbrev pub sigemptyset : ℕ
sigemptyset = 0

abbrev pub sigfillset : ℕ
sigfillset = sigmask

-- -1 is `none`, 1 and 0 are truth values.
unfoldable pub sigismember : ℕ → ℕ → Option Bool
sigismember set signo = if sigisvalid signo then some (not (bit_and set (2 ^ signo) == 0)) else none

-- The result of `sigismember` as a condition: -1 is true.
abbrev pub truth : Option Bool → Bool
truth none = true
truth (some b) = b

pub record SigAction : Type 0 where
  pub sa_handler : ℕ
  pub sa_mask : ℕ
  pub sa_flags : ℕ

-- The fields of `struct proc` that signals use.
pub record SigProc : Type 0 where
  pub image : Image
  pub state : ℕ
  pub sig_pending : ℕ
  pub sig_mask : ℕ
  pub sig_mask2 : ℕ
  pub sig_table : ℕ → SigAction
  pub sa_restorer : ℕ

-- The loop of `is_sigpending`, with `n` rounds left.
unfoldable sigpending_from : (n i pendings blocked : ℕ) → ℕ
sigpending_from zero i pendings blocked = 0
sigpending_from (suc n) i pendings blocked =
    let rest = sigpending_from n (i + 1) pendings blocked in
    if not (bit_and pendings (2 ^ i) == 0) && (bit_and blocked (2 ^ i) == 0) then i else rest

unfoldable pub is_sigpending : SigProc → ℕ
unfolding sigpending_from
is_sigpending who =
    let pendings = who.sig_pending in
    let blocked = who.sig_mask in
    if not (pendings == 0) && not (pendings == blocked)
    then sigpending_from (nsig - 1) 1 pendings blocked
    else 0

abbrev pub sig_block : ℕ
sig_block = 0

abbrev pub sig_unblock : ℕ
sig_unblock = 1

abbrev pub sig_setmask : ℕ
sig_setmask = 2

-- The loops of `do_sigprocmask`, with `n` rounds left.
unfoldable block_loop : (n i set blocked : ℕ) → ℕ
block_loop zero i set blocked = blocked
block_loop (suc n) i set blocked =
    block_loop n (i + 1) set
      (if truth (sigismember set i) then (sigaddset blocked i).1 else blocked)

unfoldable unblock_loop : (n i set blocked : ℕ) → ℕ
unblock_loop zero i set blocked = blocked
unblock_loop (suc n) i set blocked =
    unblock_loop n (i + 1) set
      (if truth (sigismember set i) then (sigdelset blocked i).1 else blocked)

-- The set without SIGKILL and SIGSTOP.
unfoldable pub without_kill : ℕ → ℕ
without_kill set = (sigdelset (sigdelset set sigkill).1 sigstop).1

-- `none` where `is_vaddr_ok` reads outside the page table. The word is what the call writes at
-- `oldact`.
unfoldable pub do_sigprocmask : SigProc → (how set oldact : ℕ) → Option (Errno × Option ℕ × SigProc)
unfolding block_loop unblock_loop
do_sigprocmask who how set oldact = elim (is_vaddr_ok oldact who.image) [
  | none ↦ none
  | some false ↦ some (eacces, none, who)
  | some true ↦
      let old = who.sig_mask in
      let set = without_kill set in
      if how == sig_setmask
      then some (ok, some old, record who { sig_mask = set })
      else if how == sig_block
      then some (ok, some old, record who { sig_mask = block_loop (nsig - 1) 1 set who.sig_mask })
      else if how == sig_unblock
      then some (ok, some old, record who { sig_mask = unblock_loop (nsig - 1) 1 set who.sig_mask })
      else some (einval, some old, who)
]

-- The word is what the call writes at the address.
unfoldable pub do_sigpending : SigProc → (vp : ℕ) → Option (Errno × Option ℕ)
do_sigpending who vp = elim (is_vaddr_ok vp who.image) [
  | none ↦ none
  | some false ↦ some (eacces, none)
  | some true ↦ some (ok, some who.sig_pending)
]

abbrev pub state_pausing : ℕ
state_pausing = 8

-- `none` is SUSPEND.
unfoldable pub do_sigsuspend : SigProc → (set : ℕ) → Option Errno × SigProc
do_sigsuspend who set =
    let who' = record who { sig_mask2 = who.sig_mask; sig_mask = without_kill set } in
    if not (is_sigpending who' == 0)
    then (some eintr, who')
    else (none, record who' { state = bit_or who'.state state_pausing })

-- Where `oact` points: nowhere, elsewhere, or at the caller's own `act`.
pub data OldAct : Type 0 where
  null_oact other_oact same_oact : OldAct

unfoldable pub set_action : (ℕ → SigAction) → ℕ → SigAction → ℕ → SigAction
set_action table signum act i = if i == signum then act else table i

-- What `act` points at once the old action has been copied to `oact`.
abbrev pub copied_over : OldAct → (old act : SigAction) → SigAction
copied_over null_oact old act = act
copied_over other_oact old act = act
copied_over same_oact old act = old

-- What `oact` points at in the end.
abbrev pub left_at : OldAct → (old act : SigAction) → Option SigAction
left_at null_oact old act = none
left_at other_oact old act = some old
left_at same_oact old act = some act

-- What follows the guards of `sys_sigaction`: its status, and what `act` and `oact` then point at.
unfoldable pub install :
    SigProc
    → (signum : ℕ) → SigAction
    → OldAct
    → (restorer : ℕ) → Errno × SigAction × Option SigAction × SigProc
install who signum act oact restorer =
    let old = who.sig_table signum in
    let copied = copied_over oact old act in
    let cleaned : SigAction = record copied { sa_mask = without_kill copied.sa_mask } in
    (
      ok,
      cleaned,
      left_at oact old cleaned,
      record who { sig_table = set_action who.sig_table signum cleaned; sa_restorer = restorer },
    )

unfoldable pub sys_sigaction :
    SigProc
    → (signum : ℕ) → SigAction
    → OldAct
    → (restorer : ℕ) → Errno × SigAction × Option SigAction × SigProc
unfolding install
sys_sigaction who signum act oact restorer =
    if ltb signum 1 || leb nsig signum
    then (einval, act, none, who)
    else if (signum == sigkill) || (signum == sigstop)
    then (einval, act, none, who)
    else if act.sa_handler == sig_ign
    then if signum == sigsegv
      then (einval, act, none, who)
      else install (record who { sig_pending = (sigdelset who.sig_pending signum).1 }) signum act
          oact restorer
    else install who signum act oact restorer

-- The answer of `do_signal`: `none` is SIG_ERR, otherwise the handler that was there.
abbrev signal_answer : Errno → Option SigAction → Option ℕ
signal_answer ok none = none
signal_answer ok (some oldsa) = some oldsa.sa_handler
signal_answer _ _ = none

unfoldable pub do_signal : SigProc → (signum handler restorer : ℕ) → Option ℕ × SigProc
do_signal who signum handler restorer =
    let sa : SigAction = record {
      sa_handler = handler;
      sa_mask = 0xffff;
      sa_flags = sa_resethand;
    } in
    let (status, _, oldsa, who') = sys_sigaction who signum sa other_oact restorer in
    (signal_answer status oldsa, who')
