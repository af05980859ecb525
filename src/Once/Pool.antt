-- ===== src/Once/Pool.antt =====
-- Many threads that call one Once (sex/util/once.hpp), each running the program of operator() a
-- call at a time, with one flag and one mutex.
pub mod Simulates
pub mod Together
pub mod Progress
mod Tests
use sex.Common.{ℕ, suc, Bool, false, Option, none, some, ◌==◌, if◌then◌else◌, ◌≡◌}
use sex.Runtime.{Outcome, done, thrown}
use sex.Calls.{ends, Advances}
use sex.Once.Program.{
  OnceCall, load_call, lock_call, action_call, unlock_call, store_call, OnceAnswer, OnceProgram,
  once_program,
}

-- `invoked_`, the owner of `mutex_`, and how often the action has come to its end.
pub record Memory : Type 0 where
  pub invoked : Bool
  pub owner : Option ℕ
  pub completed : ℕ

-- What a call of thread `t` does, and its answer. The mutex is taken where it is free; the action
-- returns or throws, since a process that has ended makes no more calls.
abbrev pub Happens : (t : ℕ) (m : Memory) (c : OnceCall) → OnceAnswer c → Memory → Type 0
Happens t m load_call set m' = (set ≡ m.invoked) × (m' ≡ m)
Happens t m (store_call set) a m' = m' ≡ record m { invoked = set }
Happens t m lock_call a m' = (m.owner ≡ none) × (m' ≡ record m { owner = some t })
Happens t m unlock_call a m' = m' ≡ record m { owner = none }
Happens t m action_call (done _) m' = m' ≡ record m { completed = suc m.completed }
Happens t m action_call (thrown e) m' = m' ≡ m
Happens t m action_call _ m' = ⊥

pub record Pool : Type 0 where
  pub memory : Memory
  pub program : ℕ → OnceProgram

abbrev pub goes_on_with : Pool → ℕ → Memory → OnceProgram → Pool
goes_on_with x t m p = record { memory = m; program = λ u. if t == u then p else x.program u }

-- A call of a thread happens, or a thread that is out of operator() begins with it again.
pub data PoolStep (x : Pool) : Pool → Type 0 where
  advances :
      (t : ℕ) (m : Memory) (p : OnceProgram)
      → Advances (Happens t x.memory) (x.program t) m p
      → PoolStep x (goes_on_with x t m p)
  begins_again :
      (t : ℕ) (r : Outcome (Unit {0}))
      → x.program t ≡ ends r
      → PoolStep x (goes_on_with x t x.memory once_program)

abbrev pub first_pool : Pool
first_pool = record {
  memory = record { invoked = false; owner = none; completed = 0 };
  program = λ t. once_program;
}

pub data ReachablePool : Pool → Type 0 where
  pool_start : ReachablePool first_pool
  pool_after : (x x' : Pool) → ReachablePool x → PoolStep x x' → ReachablePool x'
