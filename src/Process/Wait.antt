-- ===== src/Process/Wait.antt =====
-- `wait` reads a status word as the way in which the process ended.
use sex.Common.{
  ℕ, ◌+◌, ◌*◌, ◌%◌, ◌<◌, ◌⊎◌, inl, inr, Bool, true, Bool-cases, false, ◌≡◌, ◌≢◌, arith,
  if◌then◌else◌,
}
use sex.Common.Int.{pos, ◌==ℤ◌, ==ℤ_self, ==ℤ_ne}
use sex.Runtime.{done, Panics}
use sex.ExitStatus.{ExitStatus, exited_status, signaled_status}
use sex.Process.{ProcessKnob, ProcessCalls, wait}

-- The ways in which a process ends, as the kernel encodes them: by _exit with an int, of which the
-- low byte is kept, or by a signal, with or without a core dump.
pub data Ending : Type 0 where
  exits : ℕ → Ending
  killed : ℕ → Bool → Ending

abbrev pub status_word : Ending → ℕ
status_word (exits code) = code % 256 * 256
status_word (killed signal core) = signal + (if core then 128 else 0)

abbrev pub IsEnding : Ending → Type 0
IsEnding (exits code) = Unit
IsEnding (killed signal core) = (0 < signal) × (signal < 127)

-- What the waiting side should see.
abbrev pub exit_status_of : Ending → ExitStatus
exit_status_of (exits code) = exited_status (pos (code % 256))
exit_status_of (killed signal core) = signaled_status (pos signal)

module _ {W : Type 0} (k : ProcessCalls W) (knob : ProcessKnob) (w : W) where
  open k use {waitpid}

  -- If waitpid reports the process itself and the encoding of its ending, `wait` returns that
  -- ending: Exited with the low byte of the exit code, or Signaled with the signal, whether or not
  -- core was dumped.
  pub wait_ending :
      (e : Ending)
      → IsEnding e
      → (waitpid knob.pid w).0.0.value ≡ knob.pid
      → (waitpid knob.pid w).0.1 ≡ status_word e
      → wait k knob w ≡ (done (exit_status_of e), (waitpid knob.pid w).1)
  unfolding wait
  wait_ending (exits code) i p q = ground (arith, ==ℤ_self knob.pid)
  wait_ending (killed signal true) i p q = ground (arith, ==ℤ_self knob.pid)
  wait_ending (killed signal false) i p q = ground (arith, ==ℤ_self knob.pid)

  -- If waitpid returns anything but the process, or a status that is no ending (the low seven bits
  -- are all set, as in a stop), `wait` throws a PanicException.
  pub wait-Panics :
      ((waitpid knob.pid w).0.0.value ≢ knob.pid) ⊎ ((waitpid knob.pid w).0.1 % 128 ≡ 127)
      → Panics (wait k knob w).0
  unfolding wait
  wait-Panics (inl h) = ground (arith, ==ℤ_ne _ _ h)
  wait-Panics (inr h) = elim (Bool-cases ((waitpid knob.pid w).0.0.value ==ℤ knob.pid)) [
    | inl e ↦ ground arith
    | inr e ↦ ground arith
  ]
