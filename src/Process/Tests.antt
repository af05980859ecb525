-- ===== src/Process/Tests.antt =====
-- A child that has ended, and one that was stopped.
use sex.Common.{ℕ, ◌≡◌, refl}
use sex.Common.Int.{pos}
use sex.Runtime.{done, Sys}
use sex.ExitStatus.{signaled_status}
use sex.Process.{ProcessCalls, knob_of_pid, wait}

abbrev pub plain_sys : Sys (Unit {0})
plain_sys = record {
  format = λ f args. f;
  strerror = λ n. "";
  error_text = λ n. "";
  close = λ fd w. (record { value = pos 0; errno = 0 }, w);
}

-- waitpid reports the child asked for, with this status word.
abbrev reports : ℕ → ProcessCalls (Unit {0})
reports status = record {
  sys = plain_sys;
  waitpid = λ pid w. ((record { value = pid; errno = 0 }, status), w);
  kill = λ pid signal w. (record { value = pos 0; errno = 0 }, w);
}

killed_with_core :
    wait (reports 139) (knob_of_pid (pos 7)) tt ≡ (done (signaled_status (pos 11)), tt)
unfolding wait
killed_with_core = refl
