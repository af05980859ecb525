-- ===== src/Cgroup/Program/Runs.antt =====
-- The program of `InitializeParentCgroup` is its code (sex/cgroup_controller.cpp).
use sex.Common.{◌≡◌, arith}
use sex.Errors.{sex_assert, panic}
use sex.Calls.{run_program}
use sex.Flock.Guarded.{outcome_of}
use sex.Flock.Guarded.Runs.{perform, guarded_program_runs}
use sex.Container.{fs_call}
use sex.Container.Program.{fs_result}
use sex.Cgroup.{CgroupCalls, sbox_cgroup, assert_file, create_parent, initialize_parent_cgroup}
use sex.Cgroup.Program.{exists_call, parent_initialiser, own, parent_program}

module _ {W : Type 0} (k : CgroupCalls W) where
  open k use {locks, parent_path, exists}

  checks :
      (w : W)
      → let (a, w') = own k exists_call w in
        fs_call (exists (sbox_cgroup k)) w ≡ (outcome_of (fs_result a), w')
  checks w = ground arith

  creates :
      (w : W)
      → let (r, w') = run_program (own k) (parent_initialiser locks.sys).create w in
        create_parent k w ≡ (outcome_of r, w')
  unfolding create_parent assert_file sex_assert panic run_program
  creates w = ground arith

  -- The program is the code: run at once, it does in every world, whatever the calls answer there,
  -- what the action of `InitializeParentCgroup` does, with the same calls in the same order, the
  -- same outcome, down to the text of an exception, and the same world left behind.
  pub parent_program_runs :
      (w : W)
      → run_program
          (perform locks (parent_path (sbox_cgroup k)) (own k))
          (parent_program locks.sys)
          w
        ≡ initialize_parent_cgroup k w
  unfolding initialize_parent_cgroup parent_program
  parent_program_runs w =
      guarded_program_runs locks (parent_path (sbox_cgroup k)) (own k)
        (parent_initialiser locks.sys) (fs_call (exists (sbox_cgroup k))) (create_parent k) checks
        creates w
