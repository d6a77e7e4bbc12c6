-- ===== src/Signal/Tests.antt =====
-- Signals on a concrete process.
use winix.Prelude.{ℕ, ◌≡◌, refl, true, Option, none, some, bit, ◌∷◌, replicate}
use winix.Errno.{Errno}
use winix.Mm.{is_vaddr_ok}
use winix.Bitmap.{is_bit_on, mask}
use winix.Signal.{
  SigProc, SigAction, other_oact, sigismember, sigaddset, sigdelset, sigpending_from, is_sigpending,
  do_sigprocmask, sys_sigaction, without_kill, block_loop,
}
use winix.Signal.Next.{FirstReady, is_sigpending-FirstReady}
use winix.Signal.Procmask.{Masked, do_sigprocmask-Masked}
use winix.Signal.Action.{Acted, sys_sigaction-Acted}
use winix.Signal.Kill.{Unblockable, sys_sigaction-Unblockable}

-- A process at address 1024 that may use pages 1 and 2, with SIGINT (2) and SIGKILL (9) pending,
-- SIGINT blocked.
abbrev shell : SigProc
shell = record {
  image = record {
    rbase = 1024;
    ptable = 0x6000_0000 ∷ replicate 31 0;
    mem_start = 1024;
    heap_bottom = 3071;
  };
  state = 0;
  sig_pending = 516;
  sig_mask = 4;
  sig_mask2 = 0;
  sig_table = λ _. record { sa_handler = 0; sa_mask = 0; sa_flags = 0 };
  sa_restorer = 0;
}

abbrev ignore : SigAction
ignore = record { sa_handler = 1; sa_mask = 0xffff_ffff; sa_flags = 0 }

kill_next : is_sigpending shell ≡ 9
unfolding is_sigpending sigpending_from
kill_next = refl

abbrev mask_of : Option (Errno × Option ℕ × SigProc) → ℕ
mask_of none = 0
mask_of (some (_, _, who)) = who.sig_mask

-- To block signals 1, 2 and 9 adds signal 1 to the mask.
blocks_hup : mask_of (do_sigprocmask shell 0 518 100) ≡ 6
unfolding is_vaddr_ok is_bit_on mask do_sigprocmask block_loop without_kill sigismember sigaddset
    sigdelset
blocks_hup = refl

accessible : is_vaddr_ok 100 shell.image ≡ some true
unfolding is_vaddr_ok is_bit_on mask
accessible = refl

unblockable : Unblockable shell
unfolding bit
unblockable = record { mask = (refl, refl); handlers = λ i. (refl, refl) }

is_sigpending_example : FirstReady 1 20 516 4 (is_sigpending shell)
is_sigpending_example = is_sigpending-FirstReady shell

do_sigprocmask_example :
    (status : Errno) × (old : Option ℕ) × (who' : SigProc) × (do_sigprocmask shell 0 518 100
      ≡ some (status, old, who'))
    × Masked shell 0 518 status old who'
do_sigprocmask_example = do_sigprocmask-Masked shell 0 518 100 accessible

sys_sigaction_example :
    Acted shell 2 ignore other_oact 7 (sys_sigaction shell 2 ignore other_oact 7)
sys_sigaction_example = sys_sigaction-Acted shell 2 ignore other_oact 7

sys_sigaction-Unblockable_example : Unblockable (sys_sigaction shell 2 ignore other_oact 7).3
sys_sigaction-Unblockable_example =
    sys_sigaction-Unblockable shell 2 ignore other_oact 7 unblockable
