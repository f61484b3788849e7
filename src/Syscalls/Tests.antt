-- ===== src/Syscalls/Tests.antt =====
-- The calls at a kernel with two ready tasks.
use so2_project.Common.{ℕ, ◌≡◌, refl, true, pos, arith}
use so2_project.Screen.{Screen}
use so2_project.Buffer.{init_circular_buffer, circular_buffer_push}
use so2_project.CharQueue
use so2_project.Utils.{access_ok, verify_write}
use so2_project.Kernel.{Kernel}
use so2_project.Syscalls.{sys_block}
use so2_project.Syscalls.Block.{Blocked, sys_block-IsSched}
use so2_project.Syscalls.Statistics.{IsWords, reported, sys_get_stats}
use so2_project.Syscalls.Statistics.Answer.{Reported, sys_get_stats-Reported}
use so2_project.Samples.{zero_task, zeros, two_family, two_more, two_more-IsSched, two_more-idle}

sys_block-IsSched_example :
    Blocked two_more two_family
      (two_more.tasks two_more.current).pending_unblocks
      (sys_block two_more)
sys_block-IsSched_example = sys_block-IsSched two_more-IsSched.0 two_more-idle

-- A process that still has time, and a character for it.
abbrev served : Kernel
served = record zeros {
  tasks = λ t. record zero_task { key_timeout = pos 5 };
  keyboard_buffer =
      (circular_buffer_push (init_circular_buffer zeros.keyboard_buffer) (pos b'a')).1;
}

-- The statistics of the first process of a kernel whose tasks have all the number 0.
zeros-IsWords : (i : ℕ) → IsWords (reported zeros i)
zeros-IsWords i = record {
  user = omega arith;
  system = omega arith;
  waiting = omega arith;
  ready = omega arith;
  elapsed = omega arith;
  trans = omega arith;
  remaining = omega arith;
}

writable : access_ok verify_write 0x108000 28 ≡ true
unfolding access_ok
writable = refl

sys_get_stats-Reported_example :
    Reported zeros (λ a. 0) (pos 0) 0x108000 (sys_get_stats zeros (λ a. 0) (pos 0) 0x108000)
sys_get_stats-Reported_example =
    sys_get_stats-Reported zeros (λ a. 0) (pos 0) 0x108000 writable refl zeros-IsWords
