-- ===== src/Flock/Guarded/Pool/Phases.antt =====
-- Where a process is in the guarded program (sex/util/flock.hpp).
use sex.Common.{Bool, true, false}
use sex.Common.Int.{ℤ}
use sex.Runtime.{Outcome, done, thrown, Sys}
use sex.Result.{Result, ok, error}
use sex.Calls.{CallProgram, ends}
use sex.Flock.Laws.{Mode, free, shared, exclusive}
use sex.Flock.Guarded.{
  GuardProgram, Initialiser, leaves, then_leaves, second_program, exclusive_program, first_program,
  shared_program, guarded_program,
}

-- Before open; before `lock(RLock)`; its check; before `lock(RWLock)`, with the shared lock and
-- without it; the second check; the making, of which some program is left; the destructor of the
-- guard where nothing is to be unlocked; and out of the initialiser.
pub data Phase {C : Type 0} (A : C → Type 0) : Type 0 where
  opening : Phase A
  asking first converting waiting second : ℤ → Phase A
  making : ℤ → CallProgram C A (Result (Unit {0})) → Phase A
  leaving_shared leaving : ℤ → Outcome (Unit {0}) → Phase A
  out : Outcome (Unit {0}) → Phase A

module _ {C : Type 0} {A : C → Type 0} where
  abbrev pub lock_of : Phase A → Mode
  lock_of (first fd) = shared
  lock_of (converting fd) = shared
  lock_of (second fd) = exclusive
  lock_of (making fd p) = exclusive
  lock_of (leaving_shared fd r) = shared
  lock_of _ = free

  -- What follows the first check and the second one.
  abbrev pub after_first_check : ℤ → Result Bool → Phase A
  after_first_check fd (ok true) = leaving_shared fd (done tt)
  after_first_check fd (ok false) = converting fd
  after_first_check fd (error e) = leaving_shared fd (thrown e)

  module _ (i : Initialiser A) where
    abbrev pub decided : Result Bool → CallProgram C A (Result (Unit {0}))
    decided (ok true) = ends (ok tt)
    decided (ok false) = i.create
    decided (error e) = ends (error e)

    module _ {W : Type 0} (sys : Sys W) where
      -- What is left to run.
      abbrev pub program_of : Phase A → GuardProgram A
      program_of opening = guarded_program sys i
      program_of (asking fd) = shared_program sys i fd
      program_of (first fd) = first_program sys i fd
      program_of (converting fd) = exclusive_program sys i fd
      program_of (waiting fd) = exclusive_program sys i fd
      program_of (second fd) = second_program i fd
      program_of (making fd p) = then_leaves fd p
      program_of (leaving_shared fd r) = leaves fd r
      program_of (leaving fd r) = leaves fd r
      program_of (out r) = ends r
