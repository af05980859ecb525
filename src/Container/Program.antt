-- ===== src/Container/Program.antt =====
-- The action of `Initialize` (sex/container.cpp) as a guarded program: its own calls, and what
-- comes after each answer.
pub mod Runs
mod Tests
pub use sex.Flock.Guarded.{
  open_call, flock_call, close_call, own_call, leaves, leaves_exclusive, open_failure,
  flock_failure,
}
use sex.Common.{ℕ, String, Bool, ◌==◌, if◌then◌else◌}
use sex.Common.Int.{ℤ}
use sex.Runtime.{filesystem_error, Sys}
use sex.Result.{Result, ok, error}
use sex.Calls.{CallProgram, ends, calls}
use sex.Flock.Guarded.{
  GuardCall, GuardAnswer, GuardProgram, Initialiser, then_leaves, guarded_program,
}
use sex.Flock.Guarded
use sex.Container.{ContainerCalls}

-- The calls of std::filesystem: exists and create_directory of TmpSbox.
pub data OwnCall : Type 0 where
  exists_call create_call : OwnCall

-- A Bool and the code of an error.
abbrev pub OwnAnswer : OwnCall → Type 0
OwnAnswer c = Bool × ℕ

-- All calls, and the rest of a run.
abbrev pub SysCall : Type 0
SysCall = GuardCall OwnCall

abbrev pub Answer : SysCall → Type 0
Answer = GuardAnswer OwnAnswer

abbrev pub Program : Type 0
Program = GuardProgram OwnAnswer

-- What a function of std::filesystem returns or throws.
abbrev pub fs_result : {B : Type 0} → B × ℕ → Result B
fs_result a = if a.1 == 0 then ok a.0 else error (filesystem_error a.1)

-- `fs::create_directory(TmpSbox)`
abbrev sbox_making : CallProgram OwnCall OwnAnswer (Result (Unit {0}))
sbox_making =
    calls create_call (λ a. ends (if a.1 == 0 then ok tt else error (filesystem_error a.1)))

-- The lambda `check`, and what follows the second one.
abbrev pub sbox_initialiser : Initialiser OwnAnswer
sbox_initialiser = record { check = exists_call; found = fs_result; create = sbox_making }

module _ {W : Type 0} (k : ContainerCalls W) where
  open k use {exists, create_directory, tmp_sbox}

  abbrev pub own : (c : OwnCall) → W → OwnAnswer c × W
  own exists_call w = exists tmp_sbox w
  own create_call w = create_directory tmp_sbox w

-- The rest of a run, from the making, the second check, `lock(RWLock)`, the first check and
-- `lock(RLock)` on.
abbrev pub creating_program : ℤ → Program
creating_program fd = then_leaves fd sbox_making

abbrev pub second_program : ℤ → Program
second_program fd = Guarded.second_program sbox_initialiser fd

module _ {W : Type 0} (sys : Sys W) where
  abbrev pub exclusive_program : ℤ → Program
  exclusive_program fd = Guarded.exclusive_program sys sbox_initialiser fd

  abbrev pub first_program : ℤ → Program
  first_program fd = Guarded.first_program sys sbox_initialiser fd

  abbrev pub shared_program : ℤ → Program
  shared_program fd = Guarded.shared_program sys sbox_initialiser fd

  -- All of it.
  unfoldable pub initialize_program : Program
  unfolding guarded_program
  initialize_program = guarded_program sys sbox_initialiser
