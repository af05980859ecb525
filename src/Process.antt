-- ===== src/Process.antt =====
-- sex/detail/process_knob.{hpp,cpp}: a started process, and waiting for it.
pub mod Wait
pub mod Tests
use sex.Common.{ℕ, String, [], ◌∷◌, Bool, ◌&&◌, ◌==◌, ltb, if◌then◌else◌, ◌/◌, ◌%◌}
use sex.Common.Int.{ℤ, pos, ◌==ℤ◌}
use sex.Runtime.{
  Outcome, done, Action, Method, Reply, Syscall, Sys, this, outside, pure, ◌>>=◌, ◌>>◌, at, num,
}
use sex.Errors.{sex_assert, panic}
use sex.Result.{Result, sex_syscall, then_value}
use sex.ExitStatus.{ExitStatus, exited_status, signaled_status}
use sex.Fd.{FileDescriptor, FdHolder, empty_holder}

-- ProcessKnob
pub record ProcessKnob : Type 0 where
  pub pid : ℤ
  pub pid_fd : FdHolder

-- ProcessKnob(int, FdHolder) and ProcessKnob(int)
abbrev pub process_knob : ℤ → FdHolder → ProcessKnob
process_knob pid pid_fd = record { pid = pid; pid_fd = pid_fd }

abbrev pub knob_of_pid : ℤ → ProcessKnob
knob_of_pid pid = process_knob pid empty_holder

abbrev get_pid : ProcessKnob → ℤ
get_pid k = k.pid

abbrev get_pid_fd : ProcessKnob → FileDescriptor
get_pid_fd k = k.pid_fd.fd

-- The macros of sys/wait.h on a status word.
abbrev wifexited : ℕ → Bool
wifexited status = status % 128 == 0

abbrev wexitstatus : ℕ → ℕ
wexitstatus status = status / 256 % 256

abbrev wifsignaled : ℕ → Bool
wifsignaled status = ltb 0 (status % 128) && ltb (status % 128) 127

abbrev wtermsig : ℕ → ℕ
wtermsig status = status % 128

-- The system calls: waitpid with the status that it stores, and kill.
pub record ProcessCalls (W : Type 0) : Type 0 where
  pub sys : Sys W
  pub waitpid : ℤ → W → (Reply × ℕ) × W
  pub kill : ℤ → ℤ → Syscall W

abbrev process_knob_cpp : String
process_knob_cpp = "sex/detail/process_knob.cpp"

module _ {W : Type 0} (k : ProcessCalls W) where
  open k use {sys, waitpid, kill}

  -- The status word that `wait` has after its first assertion.
  reap : ProcessKnob → Action W ℕ
  unfolding sex_assert
  reap knob w =
      let ((reply, status), w') = waitpid knob.pid w in
      (sex_assert sys "waitpid(pid_, &status, __WALL) == pid_" (reply.value ==ℤ knob.pid)
            (at 23 "wait" process_knob_cpp)
          >> pure status)
        w'

  -- The rest of `wait`, on the status word.
  decode : ℕ → Action W ExitStatus
  unfolding panic
  decode status =
      if wifexited status
      then pure (exited_status (pos (wexitstatus status)))
      else if wifsignaled status
      then pure (signaled_status (pos (wtermsig status)))
      else panic sys (sys.format "Wait status {} is not supported" (num status ∷ []))
          (at 30 "wait" process_knob_cpp)

  -- ProcessKnob::wait
  unfoldable pub wait : ProcessKnob → Action W ExitStatus
  unfolding reap decode
  wait knob = reap knob >>= decode

  -- ProcessKnob::sendSignal
  unfoldable send_signal : ProcessKnob → ℤ → Action W (Result (Unit {0}))
  unfolding sex_syscall then_value
  send_signal knob signum = do
    r ←
        sex_syscall sys "kill(getPid(), signum)" (kill (get_pid knob) signum)
          (at 38 "sendSignal" process_knob_cpp)
    then_value sys (λ _. pure tt) r
