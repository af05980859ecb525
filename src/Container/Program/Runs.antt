-- ===== src/Container/Program/Runs.antt =====
-- The program of `Initialize` is its code (sex/container.cpp).
use sex.Common.{◌≡◌, arith}
use sex.Calls.{run_program}
use sex.Flock.Guarded.{outcome_of}
use sex.Flock.Guarded.Runs.{perform, guarded_program_runs}
use sex.Container.{ContainerCalls, initialize, check_sbox, make_directory}
use sex.Container.Program.{exists_call, fs_result, sbox_initialiser, own, initialize_program}

module _ {W : Type 0} (k : ContainerCalls W) where
  open k use {locks, tmp_sbox, parent_path}

  checks :
      (w : W) → let (a, w') = own k exists_call w in check_sbox k w ≡ (outcome_of (fs_result a), w')
  unfolding check_sbox
  checks w = ground arith

  creates :
      (w : W)
      → let (r, w') = run_program (own k) sbox_initialiser.create w in
        make_directory k tmp_sbox w ≡ (outcome_of r, w')
  unfolding make_directory run_program
  creates w = ground arith

  -- The program is the code: run at once, it does in every world, whatever the calls answer there,
  -- what the action of `Initialize` does, with the same calls in the same order, the same outcome
  -- and the same world left behind.
  pub initialize_program_runs :
      (w : W)
      → run_program (perform locks (parent_path tmp_sbox) (own k)) (initialize_program locks.sys) w
        ≡ initialize k w
  unfolding initialize initialize_program
  initialize_program_runs w =
      guarded_program_runs locks (parent_path tmp_sbox) (own k) sbox_initialiser (check_sbox k)
        (make_directory k tmp_sbox) checks creates w
