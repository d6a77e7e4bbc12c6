-- ===== src/Wait/Tests.antt =====
-- A parent, process 1, with a zombie child, process 3, of pid 40.
use winix.Prelude.{ℕ, ◌≡◌, refl, ◌==◌, if◌then◌else◌}
use winix.Wait.{
  Table, Entry, WaitAnswer, do_waitpid, find_child, wait_end, is_child, passed_over, has_changed,
  release_zombie, get_wstats,
}
use winix.Wait.Answer.{Waited, do_waitpid-Waited}

abbrev entry : (flags state pid parent : ℕ) → Entry
entry flags state pid parent = record {
  flags = flags;
  state = state;
  pid = pid;
  procgrp = 7;
  session_id = 7;
  parent = parent;
  exit_status = 3;
  sig_status = 0;
  wpid = 0;
  woptions = 0;
}

abbrev family : Table
family i =
    if i == 1 then entry 1 0 7 0 else if i == 3 then entry 1 0x8000_0000 40 1 else entry 0 0 0 0

abbrev pid_of : WaitAnswer → ℕ
pid_of (WaitAnswer.reaped pid status) = pid
pid_of _ = 99

-- The answer for the child of pid 40 is 0.
zombie_pid : pid_of (do_waitpid family 1 40 0).0 ≡ 0
unfolding do_waitpid find_child wait_end is_child passed_over has_changed release_zombie get_wstats
zombie_pid = refl

do_waitpid_example : Waited family 1 40 0 (do_waitpid family 1 40 0)
do_waitpid_example = do_waitpid-Waited family 1 40 0
