-- ===== src/Execute/Parent.antt =====
-- What `Execute` gives the parent.
use sex.Common.{◌≡◌, ◌≢◌, arith, if◌then◌else◌}
use sex.Common.Int.{pos, minus_one, ==ℤ_ne}
use sex.Runtime.{done, thrown, Action, at}
use sex.Result.{failure}
use sex.ExecuteArgs.{CloneArgs}
use sex.Fd.{holder}
use sex.Hooks.{IExecuteHooks}
use sex.Execute.{ExecuteCalls, execute, has_pidfd}

module _ {W H : Type 0} (k : ExecuteCalls W) (hooks : IExecuteHooks H W) (f : Action W (Unit {0}))
    (args : CloneArgs) (h : H) (w : W) where
  open k use {sys, pidfd_address, clone3}

  abbrev given : CloneArgs
  given = if has_pidfd args then record args { pidfd = pidfd_address } else args

  -- In the process where clone3 returns a number that is neither 0 nor -1, and where BeforeClone
  -- and AfterCloneParent return, Execute does not run the routine and returns the knob of that
  -- process: it owns the descriptor that the kernel stored if CLONE_PIDFD is among the flags that
  -- BeforeClone left, and none otherwise.
  pub parent_knob :
      (cl_args : CloneArgs) (h₁ h₂ : H) (w₁ w₂ : W)
      → hooks.before_clone given (h, w) ≡ (done cl_args, (h₁, w₁))
      → (clone3 cl_args minus_one w₁).0.0.value ≢ pos 0
      → (clone3 cl_args minus_one w₁).0.0.value ≢ minus_one
      → hooks.after_clone_parent cl_args
          (clone3 cl_args minus_one w₁).0.0.value
          (h₁, (clone3 cl_args minus_one w₁).1)
        ≡ (done tt, (h₂, w₂))
      → execute k hooks f args (h, w) ≡ (
        done (record {
          pid = (clone3 cl_args minus_one w₁).0.0.value;
          pid_fd =
              holder (if has_pidfd cl_args then (clone3 cl_args minus_one w₁).0.1 else minus_one);
        }),
        (h₂, w₂),
      )
  unfolding execute
  parent_knob cl_args h₁ h₂ w₁ w₂ b c d a = ground (arith, ==ℤ_ne _ _ c, ==ℤ_ne _ _ d)

  -- If clone3 fails, Execute throws its error, and neither the routine nor a further hook has run.
  pub clone_fails :
      (cl_args : CloneArgs) (h₁ : H) (w₁ : W)
      → hooks.before_clone given (h, w) ≡ (done cl_args, (h₁, w₁))
      → (clone3 cl_args minus_one w₁).0.0.value ≡ minus_one
      → execute k hooks f args (h, w) ≡ (
        thrown (
            failure sys "syscall(SYS_clone3, &cl_args, sizeof(cl_args))"
              (clone3 cl_args minus_one w₁).0.0
              (at 24 "Execute" "sex/execute.cpp")),
        (h₁, (clone3 cl_args minus_one w₁).1),
      )
  unfolding execute
  clone_fails cl_args h₁ w₁ b c = ground arith
