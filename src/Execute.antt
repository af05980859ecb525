-- ===== src/Execute.antt =====
-- sex/execute.{hpp,cpp}: `Execute` runs a routine in a new process. clone3 returns in two
-- processes; a model run is one of them, by the number that the call returns there.
pub mod Child
pub mod Composed
pub mod Sandboxed
pub mod Parent
mod Tests
use sex.Common.{ℕ, String, Bool, if◌then◌else◌}
use sex.Common.Int.{ℤ, pos, minus_one, ◌==ℤ◌}
use sex.Common.Bits.{test_bit}
use sex.Runtime.{
  Outcome, done, thrown, terminated, exited, Exception, foreign, panic_exception, error_code,
  error_message, message_exception, Action, Method, Reply, Syscall, Sys, this, set_this, outside,
  on_local, when, pure, ◌>>=◌, ◌>>◌, at,
}
use sex.Errors.{what}
use sex.Result.{Result, syscall_result, unwrap}
use sex.ExecuteArgs.{CloneArgs, pidfd_bit}
use sex.Hooks.{IExecuteHooks}
use sex.Fd.{FileDescriptor, FdHolder, empty_holder, reset, move_construct}
use sex.Process.{ProcessKnob, process_knob}

-- clone3, with the address and the first value of the variable `pidfd` and what it holds
-- afterwards; the text of a filesystem error; and `std::cerr << "Exception caught: " << … `.
pub record ExecuteCalls (W : Type 0) : Type 0 where
  pub sys : Sys W
  pub pidfd_address : ℕ
  pub clone3 : CloneArgs → ℤ → W → (Reply × ℤ) × W
  pub filesystem_text : ℕ → String
  pub print_caught : String → W → W

-- CLONE_PIDFD
abbrev pub has_pidfd : CloneArgs → Bool
has_pidfd args = test_bit args.flags pidfd_bit

module _ {W : Type 0} (k : ExecuteCalls W) where
  open k use {sys, pidfd_address, clone3, filesystem_text, print_caught}

  -- The handlers around `f()` in the child, and the calls of _exit.
  leave : Outcome (Unit {0}) × W → Outcome ProcessKnob × W
  unfolding what
  leave (done _, w) = (exited 0, w)
  leave (thrown foreign, w) = (exited 127, w)
  leave (thrown e, w) = (exited 127, print_caught (what sys filesystem_text e) w)
  leave (terminated, w) = (terminated, w)
  leave (exited n, w) = (exited n, w)

  module _ {H : Type 0} (hooks : IExecuteHooks H W) where
    -- The branch of the child.
    child : Action W (Unit {0}) → CloneArgs → Method H W ProcessKnob
    unfolding leave
    child f cl_args = do hooks.after_clone_child cl_args; outside (λ w. leave (f w))

    -- The branch of the parent.
    parent : CloneArgs → ℤ → ℤ → Method H W ProcessKnob
    unfolding reset move_construct
    parent cl_args child_pid pidfd = do
      hooks.after_clone_parent cl_args child_pid
      pfd ←
          outside (
            on_local empty_holder
              (when (has_pidfd cl_args) (reset sys (record { number = pidfd }))))
      pure (process_knob child_pid (move_construct pfd).0)

    -- The call of clone3: its result, and the variable `pidfd` after it.
    clone : CloneArgs → Method H W (Result ℤ × ℤ)
    unfolding syscall_result
    clone cl_args (h, w) =
        let ((reply, pidfd), w') = clone3 cl_args minus_one w in
        (
          done (
            syscall_result sys "syscall(SYS_clone3, &cl_args, sizeof(cl_args))" reply
                (at 24 "Execute" "sex/execute.cpp"),
            pidfd,
          ),
          (h, w'),
        )

    -- Execute
    pub execute : Action W (Unit {0}) → CloneArgs → Method H W ProcessKnob
    unfolding child parent clone unwrap
    execute f args = do
      cl_args ←
          hooks.before_clone
            (if has_pidfd args then record args { pidfd = pidfd_address } else args)
      called ← clone cl_args
      child_pid ← unwrap called.0
      if child_pid ==ℤ pos 0 then child f cl_args else parent cl_args child_pid called.1
