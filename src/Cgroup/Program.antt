-- ===== src/Cgroup/Program.antt =====
-- The action of `InitializeParentCgroup` (sex/cgroup_controller.cpp) as a guarded program: its own
-- calls, and what comes after each answer.
pub mod Runs
use sex.Common.{ℕ, String, Bool, ◌==◌, if◌then◌else◌}
use sex.Runtime.{Exception, filesystem_error, Sys, at}
use sex.Errors.{assert_failure}
use sex.Result.{Result, ok, error}
use sex.Calls.{CallProgram, ends, calls}
use sex.Flock.Guarded.{GuardProgram, Initialiser, guarded_program}
use sex.Container.Program.{fs_result}
use sex.Cgroup.{
  CgroupCalls, cgroups_path, subtree_control, sbox_cgroup, cgroup_cpp, essential_controllers,
  root_assertion, parent_assertion,
}

-- exists of the parent group; the write of cgroup.subtree_control of the root group;
-- create_directory of the parent group; and the write of its cgroup.subtree_control.
pub data ParentCall : Type 0 where
  exists_call enable_root_call create_call enable_call : ParentCall

-- A Bool and the code of an error, or what `good()` gives.
abbrev pub ParentAnswer : ParentCall → Type 0
ParentAnswer exists_call = Bool × ℕ
ParentAnswer create_call = Bool × ℕ
ParentAnswer _ = Bool

abbrev pub Making : Type 0
Making = CallProgram ParentCall ParentAnswer (Result (Unit {0}))

module _ {W : Type 0} (sys : Sys W) where
  -- The exception of an assertion that fails, by its text and line.
  abbrev not_good : String → ℕ → Exception
  not_good text line = assert_failure sys text (at line "operator()" cgroup_cpp)

  -- What follows each call of the making.
  abbrev pub after_enable : Bool → Making
  after_enable good = ends (if good then ok tt else error (not_good parent_assertion 59))

  abbrev pub after_create : Bool × ℕ → Making
  after_create a =
      if a.1 == 0 then calls enable_call after_enable else ends (error (filesystem_error a.1))

  abbrev pub after_enable_root : Bool → Making
  after_enable_root good =
      if good then calls create_call after_create else ends (error (not_good root_assertion 55))

  -- The lambda `check`, and what follows the second one.
  abbrev pub parent_initialiser : Initialiser ParentAnswer
  parent_initialiser = record {
    check = exists_call;
    found = fs_result;
    create = calls enable_root_call after_enable_root;
  }

  -- All of it.
  unfoldable pub parent_program : GuardProgram ParentAnswer
  unfolding guarded_program
  parent_program = guarded_program sys parent_initialiser

module _ {W : Type 0} (k : CgroupCalls W) where
  open k use {exists, create_directory, write_file, join}

  abbrev pub own : (c : ParentCall) → W → ParentAnswer c × W
  own exists_call w = exists (sbox_cgroup k) w
  own enable_root_call w = write_file (join cgroups_path subtree_control) essential_controllers w
  own create_call w = create_directory (sbox_cgroup k) w
  own enable_call w = write_file (join (sbox_cgroup k) subtree_control) essential_controllers w
