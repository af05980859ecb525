-- ===== src/Execute/Child.antt =====
-- What becomes of the child of `Execute`.
use sex.Common.{false, ◌≡◌, ap, ◌∙◌, arith, if◌then◌else◌}
use sex.Common.Int.{pos, minus_one}
use sex.Runtime.{Outcome, done, thrown, terminated, exited, Exception, foreign, Action}
use sex.ExecuteArgs.{CloneArgs}
use sex.Hooks.{IExecuteHooks}
use sex.Process.{ProcessKnob, ProcessCalls, wait}
use sex.Process.Wait.{Ending, exits, killed, status_word, exit_status_of, IsEnding, wait_ending}
use sex.Execute.{ExecuteCalls, execute, has_pidfd}

-- How a process that ran the routine ends: with 0 if it returned, with 127 if it threw anything,
-- with its own number if it called _exit, and by SIGABRT (6) if it ended by std::terminate.
abbrev pub ending_of : Outcome (Unit {0}) → Ending
ending_of (done _) = exits 0
ending_of (thrown e) = exits 127
ending_of (exited n) = exits n
ending_of terminated = killed 6 false

ending_of-IsEnding : (r : Outcome (Unit {0})) → IsEnding (ending_of r)
ending_of-IsEnding (done _) = tt
ending_of-IsEnding (thrown e) = tt
ending_of-IsEnding (exited n) = tt
ending_of-IsEnding terminated = ground arith

-- The ending of a process whose Execute has this outcome: in the child it must not return.
abbrev pub EndsAs : Outcome ProcessKnob → Ending → Type 0
EndsAs (exited n) e = exits n ≡ e
EndsAs terminated e = killed 6 false ≡ e
EndsAs (done k) e = ⊥
EndsAs (thrown x) e = ⊥

EndsAs-unique : (o : Outcome ProcessKnob) (d e : Ending) → EndsAs o d → EndsAs o e → d ≡ e
EndsAs-unique (exited n) d e p q = cc (p, q)
EndsAs-unique terminated d e p q = cc (p, q)
EndsAs-unique (done _) d e p q = elim p [ ]
EndsAs-unique (thrown _) d e p q = elim p [ ]

module _ {W H : Type 0} (k : ExecuteCalls W) (hooks : IExecuteHooks H W) (f : Action W (Unit {0}))
    (args : CloneArgs) (h : H) (w : W) where
  open k use {sys, pidfd_address, clone3}

  abbrev given : CloneArgs
  given = if has_pidfd args then record args { pidfd = pidfd_address } else args

  -- In the process where clone3 returns 0, and where BeforeClone and AfterCloneChild return, the
  -- process ends as the routine says and never returns from Execute: with code 0 if the routine
  -- returned, with 127 if it threw anything at all, with its own code if it called _exit, and by
  -- std::terminate if it ended so.
  pub child_ends :
      (cl_args : CloneArgs) (h₁ h₂ : H) (w₁ w₂ : W) (r : Outcome (Unit {0})) (w₃ : W)
      → hooks.before_clone given (h, w) ≡ (done cl_args, (h₁, w₁))
      → (clone3 cl_args minus_one w₁).0.0.value ≡ pos 0
      → hooks.after_clone_child cl_args (h₁, (clone3 cl_args minus_one w₁).1) ≡ (done tt, (h₂, w₂))
      → f w₂ ≡ (r, w₃)
      → EndsAs (execute k hooks f args (h, w)).0 (ending_of r)
  unfolding execute
  child_ends cl_args h₁ h₂ w₁ w₂ (done _) w₃ b c a e = ground arith
  child_ends cl_args h₁ h₂ w₁ w₂ (thrown foreign) w₃ b c a e = ground arith
  child_ends cl_args h₁ h₂ w₁ w₂ (thrown x) w₃ b c a e = ground arith
  child_ends cl_args h₁ h₂ w₁ w₂ terminated w₃ b c a e = ground arith
  child_ends cl_args h₁ h₂ w₁ w₂ (exited n) w₃ b c a e = ground arith

  -- What the routine did in the child is what the parent's `wait` returns. If the hooks return in
  -- the child, and waitpid reports to the parent, for the knob's process, the status word of a way
  -- in which the child's Execute ended, then `wait` returns Exited 0 if the routine returned,
  -- Exited 127 if it threw, Exited with the low byte of its number if it called _exit, and
  -- Signaled 6 if it ended by std::terminate.
  pub waited :
      (cl_args : CloneArgs) (h₁ h₂ : H) (w₁ w₂ : W) (r : Outcome (Unit {0})) (w₃ : W)
      (parent : ProcessCalls W) (knob : ProcessKnob) (v : W) (e : Ending)
      → hooks.before_clone given (h, w) ≡ (done cl_args, (h₁, w₁))
      → (clone3 cl_args minus_one w₁).0.0.value ≡ pos 0
      → hooks.after_clone_child cl_args (h₁, (clone3 cl_args minus_one w₁).1) ≡ (done tt, (h₂, w₂))
      → f w₂ ≡ (r, w₃)
      → EndsAs (execute k hooks f args (h, w)).0 e
      → (parent.waitpid knob.pid v).0.0.value ≡ knob.pid
      → (parent.waitpid knob.pid v).0.1 ≡ status_word e
      → wait parent knob v ≡ (done (exit_status_of (ending_of r)), (parent.waitpid knob.pid v).1)
  waited cl_args h₁ h₂ w₁ w₂ r w₃ parent knob v e b c a g n p q =
      let ended = child_ends cl_args h₁ h₂ w₁ w₂ r w₃ b c a g in
      let same : e ≡ ending_of r = EndsAs-unique _ _ _ n ended in
      wait_ending parent knob v (ending_of r) (ending_of-IsEnding r) p (q ∙ ap status_word same)

  -- AfterCloneChild stands outside the `try`: if it throws in the child, the exception leaves
  -- Execute there, and the child goes on in the caller's code instead of ending with 127; the
  -- routine is not run.
  pub child_escapes :
      (cl_args : CloneArgs) (h₁ h₂ : H) (w₁ w₂ : W) (e : Exception)
      → hooks.before_clone given (h, w) ≡ (done cl_args, (h₁, w₁))
      → (clone3 cl_args minus_one w₁).0.0.value ≡ pos 0
      → hooks.after_clone_child cl_args (h₁, (clone3 cl_args minus_one w₁).1) ≡ (thrown e, (h₂, w₂))
      → execute k hooks f args (h, w) ≡ (thrown e, (h₂, w₂))
  unfolding execute
  child_escapes cl_args h₁ h₂ w₁ w₂ e b c a = ground arith
