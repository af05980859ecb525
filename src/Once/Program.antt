-- ===== src/Once/Program.antt =====
-- operator() of Once (sex/util/once.hpp) as a program of the calls that other threads see: the
-- loads and the store of `invoked_`, the mutex, and the action.
use sex.Common.{Bool, true, if◌then◌else◌, ◌≡◌, arith}
use sex.Runtime.{Outcome, done, thrown, Action}
use sex.Calls.{CallProgram, ends, calls, run_program}
use sex.Once.{Once, invoke}

pub data OnceCall : Type 0 where
  load_call lock_call action_call unlock_call : OnceCall
  store_call : Bool → OnceCall

-- What a load gives, how the action ended, or nothing.
abbrev pub OnceAnswer : OnceCall → Type 0
OnceAnswer load_call = Bool
OnceAnswer action_call = Outcome (Unit {0})
OnceAnswer _ = Unit {0}

-- The rest of a call of operator().
abbrev pub OnceProgram : Type 0
OnceProgram = CallProgram OnceCall OnceAnswer (Outcome (Unit {0}))

-- The destructor of `lk`, by return or by exception.
abbrev pub unlocks : Outcome (Unit {0}) → OnceProgram
unlocks r = calls unlock_call (λ a. ends r)

abbrev pub stores : OnceProgram
stores = calls (store_call true) (λ a. unlocks (done tt))

-- What comes after the action: an exception skips the store, and where the process has ended there
-- is no more.
abbrev pub after_action : Outcome (Unit {0}) → OnceProgram
after_action (done _) = stores
after_action (thrown e) = unlocks (thrown e)
after_action r = ends r

abbrev pub acts : OnceProgram
acts = calls action_call after_action

-- The second test.
abbrev pub checks_again : OnceProgram
checks_again = calls load_call (λ set. if set then unlocks (done tt) else acts)

-- The constructor of `lk`.
abbrev pub locks : OnceProgram
locks = calls lock_call (λ a. checks_again)

-- All of it.
abbrev pub once_program : OnceProgram
once_program = calls load_call (λ set. if set then ends (done tt) else locks)

module _ {W : Type 0} (action : Action W (Unit {0})) where
  -- The calls where no other thread is: the mutex is free.
  abbrev pub perform : (c : OnceCall) → Once × W → OnceAnswer c × (Once × W)
  perform load_call (o, w) = (o.invoked, (o, w))
  perform (store_call set) (o, w) = (tt, (record { invoked = set }, w))
  perform action_call (o, w) = let (r, w') = action w in (r, (o, w'))
  perform lock_call s = (tt, s)
  perform unlock_call s = (tt, s)

  -- The program is the code: run at once on any Once, with any action, and in any world, it ends as
  -- the call of operator() ends, with the same flag and the same world left behind.
  pub once_program_runs :
      (o : Once) (w : W) → run_program perform once_program (o, w) ≡ invoke action (o, w)
  unfolding run_program invoke
  once_program_runs o w = ground arith
