-- ===== src/Flock/Guarded/Pool.antt =====
-- Many processes that run one guarded program, a call at a time, with one lock file, and whatever
-- their own calls work on (sex/util/flock.hpp). Each process opens the lock file once and holds its
-- lock through that descriptor alone.
pub mod Phases
pub mod Discipline
pub mod Moves
pub mod Follows
pub mod Together
pub mod Ends
pub mod Progress
use sex.Common.{ℕ, ◌==◌, if◌then◌else◌, ◌≡◌, ◌≢◌, ◌⊎◌}
use sex.Common.Int.{ℤ, minus_one}
use sex.Runtime.{Outcome, terminated, Sys}
use sex.Calls.{ends, calls, Advances}
use sex.Flock.{FlockOp, lock_sh, lock_ex, lock_un}
use sex.Flock.Laws.{Mode, free, shared, exclusive}
use sex.Flock.Guarded.{
  GuardCall, open_call, flock_call, close_call, own_call, GuardAnswer, GuardProgram, Initialiser,
  guarded_program,
}

-- What the own calls work on, and the lock of each process.
pub record Kernel (K : Type 0) : Type 0 where
  pub own : K
  pub lock : ℕ → Mode

abbrev pub locked : {K : Type 0} → Kernel K → ℕ → Mode → Kernel K
locked e t m = record e { lock = λ u. if t == u then m else e.lock u }

pub record Pool (K : Type 0) {C : Type 0} (A : C → Type 0) : Type 0 where
  pub kernel : Kernel K
  pub program : ℕ → GuardProgram A

module _ {K C : Type 0} {A : C → Type 0} where
  -- Where a process has been terminated the kernel closes its files.
  abbrev pub settled : ℕ → GuardProgram A → Kernel K → Kernel K
  settled t (ends terminated) e = locked e t free
  settled t _ e = e

  abbrev pub goes_on_with : Pool K A → ℕ → Kernel K → GuardProgram A → Pool K A
  goes_on_with x t e p = record {
    kernel = settled t p e;
    program = λ u. if t == u then p else x.program u;
  }

module _ {C : Type 0} {A : C → Type 0} where
  -- The process waits for an exclusive lock.
  abbrev pub Converts : GuardProgram A → Type 0
  Converts (calls (flock_call fd lock_ex) f) = Unit
  Converts _ = ⊥

module _ {K C : Type 0} {A : C → Type 0} (Own : K → (c : C) → A c → K → Type 0) where
  -- What the kernel does on a call of process `t` and answers to it: every call on the lock file
  -- may fail, a shared lock is given where nobody has an exclusive one, and an exclusive one where
  -- nobody has any.
  abbrev pub Happens :
      (t : ℕ) (e : Kernel K) (c : GuardCall C) → GuardAnswer A c → Kernel K → Type 0
  Happens t e open_call a e' = e' ≡ e
  Happens t e (own_call c) a e' = (k : K) × Own e.own c a k × (e' ≡ record e { own = k })
  Happens t e (flock_call fd lock_sh) a e' =
      (a.value ≡ minus_one) × (e' ≡ e)
      ⊎ (a.value ≢ minus_one) × ((u : ℕ) → e.lock u ≢ exclusive) × (e' ≡ locked e t shared)
  Happens t e (flock_call fd lock_ex) a e' =
      (a.value ≡ minus_one) × (e' ≡ e)
      ⊎ (a.value ≢ minus_one) × ((u : ℕ) → e.lock u ≡ free) × (e' ≡ locked e t exclusive)
  Happens t e (flock_call fd lock_un) a e' =
      (a.value ≡ minus_one) × (e' ≡ e) ⊎ (a.value ≢ minus_one) × (e' ≡ locked e t free)
  Happens t e (close_call fd) a e' = e' ≡ locked e t free

  -- A process's call happens; or the kernel takes the shared lock of a process away that asks for
  -- the exclusive one.
  pub data PoolStep (x : Pool K A) : Pool K A → Type 0 where
    advances :
        (t : ℕ) (e : Kernel K) (p : GuardProgram A)
        → Advances (Happens t x.kernel) (x.program t) e p
        → PoolStep x (goes_on_with x t e p)
    gives_up :
        (t : ℕ)
        → Converts (x.program t)
        → x.kernel.lock t ≡ shared
        → PoolStep x (record x { kernel = locked x.kernel t free })

  module _ {W : Type 0} (sys : Sys W) (i : Initialiser A) where
    -- All processes begin with the whole program.
    abbrev pub first_pool : K → Pool K A
    first_pool k = record {
      kernel = record { own = k; lock = λ t. free };
      program = λ t. guarded_program sys i;
    }

    pub data ReachablePool (k : K) : Pool K A → Type 0 where
      pool_start : ReachablePool k (first_pool k)
      pool_after : (x x' : Pool K A) → ReachablePool k x → PoolStep x x' → ReachablePool k x'
