-- ===== src/Container/Processes/Pool.antt =====
-- Many processes that run the program of `Initialize` (sex/container.cpp), a call at a time, in one
-- file system with one lock file.
pub mod Matches
pub mod Follows
pub mod Leaves
pub mod Simulates
pub mod Together
pub mod Discipline
pub mod Ends
mod Tests
pub use sex.Flock.Guarded.Pool.{
  locked, settled, goes_on_with, Converts, advances, gives_up, pool_start, pool_after,
}
use sex.Common.{ℕ, suc, Bool, true, if◌then◌else◌, ◌≡◌, ◌≢◌, ◌⊎◌}
use sex.Runtime.{Sys}
use sex.Flock.Guarded.{GuardCall, GuardAnswer}
use sex.Flock.Guarded.Pool as GuardedPool
use sex.Container.Program.{
  OwnCall, exists_call, create_call, OwnAnswer, SysCall, Answer, Program, sbox_initialiser,
}

-- Whether TmpSbox is there, and how often create_directory has made it.
pub record Sbox : Type 0 where
  pub present : Bool
  pub created : ℕ

abbrev pub with_directory : Sbox → Sbox
with_directory k = record {
  present = true;
  created = if k.present then k.created else suc k.created;
}

-- What the calls of std::filesystem do, and answer: both may fail.
abbrev pub OnSbox : Sbox → (c : OwnCall) → OwnAnswer c → Sbox → Type 0
OnSbox k exists_call a k' = (a.1 ≢ 0) × (k' ≡ k) ⊎ (a.1 ≡ 0) × (a.0 ≡ k.present) × (k' ≡ k)
OnSbox k create_call a k' = (a.1 ≢ 0) × (k' ≡ k) ⊎ (a.1 ≡ 0) × (k' ≡ with_directory k)

abbrev pub Kernel : Type 0
Kernel = GuardedPool.Kernel Sbox

abbrev pub Happens : (t : ℕ) (e : Kernel) (c : SysCall) → Answer c → Kernel → Type 0
Happens t e c a e' = GuardedPool.Happens OnSbox t e c a e'

abbrev pub Pool : Type 0
Pool = GuardedPool.Pool Sbox OwnAnswer

abbrev pub PoolStep : Pool → Pool → Type 0
PoolStep x x' = GuardedPool.PoolStep OnSbox x x'

abbrev pub first_sbox : Bool → Sbox
first_sbox there = record { present = there; created = 0 }

module _ {W : Type 0} (sys : Sys W) where
  -- All processes begin with the whole program.
  abbrev pub first_pool : Bool → Pool
  first_pool there = GuardedPool.first_pool OnSbox sys sbox_initialiser (first_sbox there)

  abbrev pub ReachablePool : Bool → Pool → Type 0
  ReachablePool there x = GuardedPool.ReachablePool OnSbox sys sbox_initialiser (first_sbox there) x
