-- ===== src/Flock/Guarded.antt =====
-- What the initialisers of Container and CgroupController have in common (sex/container.cpp,
-- sex/cgroup_controller.cpp), as a program of system calls: a check under a shared lock, the same
-- check again under the exclusive one, and then the making (sex/util/flock.hpp).
pub mod Runs
pub mod Bounded
pub mod Pool
use sex.Common.{Bool, true, false, if◌then◌else◌}
use sex.Common.Int.{ℤ, minus_one, ◌==ℤ◌}
use sex.Runtime.{Outcome, done, thrown, terminated, Exception, Reply, Sys, at}
use sex.Result.{Result, ok, error, failure}
use sex.Calls.{CallProgram, ends, calls}
use sex.Flock.{FlockOp, lock_sh, lock_ex, lock_un}

-- The calls on the lock file, and the initialiser's own.
pub data GuardCall (C : Type 0) : Type 0 where
  open_call : GuardCall C
  flock_call : ℤ → FlockOp → GuardCall C
  close_call : ℤ → GuardCall C
  own_call : C → GuardCall C

abbrev pub GuardAnswer : {C : Type 0} → (C → Type 0) → GuardCall C → Type 0
GuardAnswer A (own_call c) = A c
GuardAnswer A _ = Reply

abbrev pub GuardProgram : {C : Type 0} → (C → Type 0) → Type 0
GuardProgram {C} A = CallProgram (GuardCall C) (GuardAnswer A) (Outcome (Unit {0}))

-- An initialiser: the call of its check, what the answer says, and its making.
pub record Initialiser {C : Type 0} (A : C → Type 0) : Type 0 where
  pub check : C
  pub found : A check → Result Bool
  pub create : CallProgram C A (Result (Unit {0}))

abbrev pub outcome_of : {B : Type 0} → Result B → Outcome B
outcome_of (ok b) = done b
outcome_of (error e) = thrown e

module _ {W : Type 0} (sys : Sys W) where
  abbrev pub open_failure : Reply → Exception
  open_failure a =
      failure sys "open(path.c_str(), O_RDONLY)" a (at 62 "FileLockGuard" "sex/util/flock.hpp")

  abbrev pub flock_failure : Reply → Exception
  flock_failure a = failure sys "flock(fd_.getInt(), flag)" a (at 44 "lock" "sex/util/flock.hpp")

module _ {C : Type 0} {A : C → Type 0} where
  -- A call that fails leads to one program, and otherwise to another.
  abbrev pub on_reply : Reply → GuardProgram A → GuardProgram A → GuardProgram A
  on_reply a failed fine = if a.value ==ℤ minus_one then failed else fine

  -- The destructor of the guard, in a state that `unlock` takes for `Unlocked` and in the other,
  -- and then the end of the initialiser.
  abbrev pub leaves : ℤ → Outcome (Unit {0}) → GuardProgram A
  leaves fd r = calls (close_call fd) (λ a. on_reply a (ends terminated) (ends r))

  abbrev pub leaves_exclusive : ℤ → Outcome (Unit {0}) → GuardProgram A
  leaves_exclusive fd r =
      calls (flock_call fd lock_un) (λ a. on_reply a (ends terminated) (leaves fd r))

  -- The rest of the making, and then the destructor.
  abbrev pub then_leaves : ℤ → CallProgram C A (Result (Unit {0})) → GuardProgram A
  then_leaves fd (ends r) = leaves_exclusive fd (outcome_of r)
  then_leaves fd (calls c f) = calls (own_call c) (λ a. then_leaves fd (f a))

  module _ (i : Initialiser A) where
    abbrev pub after_second : ℤ → Result Bool → GuardProgram A
    after_second fd (ok true) = leaves_exclusive fd (done tt)
    after_second fd (ok false) = then_leaves fd i.create
    after_second fd (error e) = leaves_exclusive fd (thrown e)

    -- The second `check`.
    abbrev pub second_program : ℤ → GuardProgram A
    second_program fd = calls (own_call i.check) (λ a. after_second fd (i.found a))

  module _ {W : Type 0} (sys : Sys W) (i : Initialiser A) where
    -- `lk.lock(RWLock)`, after an `unlock` that calls nothing.
    abbrev pub exclusive_program : ℤ → GuardProgram A
    exclusive_program fd =
        calls (flock_call fd lock_ex)
          (λ a. on_reply a (leaves fd (thrown (flock_failure sys a))) (second_program i fd))

    abbrev pub after_first : ℤ → Result Bool → GuardProgram A
    after_first fd (ok true) = leaves fd (done tt)
    after_first fd (ok false) = exclusive_program fd
    after_first fd (error e) = leaves fd (thrown e)

    -- The first `check`.
    abbrev pub first_program : ℤ → GuardProgram A
    first_program fd = calls (own_call i.check) (λ a. after_first fd (i.found a))

    -- The constructor of `lk`, from its `lock(RLock)` on.
    abbrev pub shared_program : ℤ → GuardProgram A
    shared_program fd =
        calls (flock_call fd lock_sh)
          (λ a. on_reply a (leaves fd (thrown (flock_failure sys a))) (first_program fd))

    -- All of it.
    unfoldable pub guarded_program : GuardProgram A
    guarded_program =
        calls open_call
          (λ a. on_reply a (ends (thrown (open_failure sys a))) (shared_program a.value))
