-- ===== src/Cgroup/Pool/Tests.antt =====
-- Process 0 makes the parent group, and is about to enable its controllers, while process 1 has
-- opened the lock file.
use sex.Common.{ℕ, true, false, ◌≤◌, ◌≡◌, ◌≢◌, ◌⊎◌, inr, refl, [], arith}
use sex.Common.Int.{pos}
use sex.Runtime.{Reply}
use sex.Calls.{calls, run_program}
use sex.Flock.Laws.{free, shared, exclusive}
use sex.Flock.Guarded.{
  GuardProgram, Initialiser, shared_program, first_program, exclusive_program, second_program,
  then_leaves, guarded_program,
}
use sex.Flock.Guarded.Runs.{perform}
use sex.Flock.Guarded.Pool.{
  Kernel, locked, Pool, goes_on_with, first_pool, ReachablePool, pool_start,
}
use sex.Flock.Guarded.Pool.Ends.{PoolRun, no_calls, one_call, lock_taken, PoolRun-reaches}
use sex.Flock.Guarded.Pool.Together.{has_returned, guarded_pool_together}
use sex.Cgroup.{initialize_parent_cgroup, sbox_cgroup}
use sex.Cgroup.Tests.{cgroup_sys, counting, no_digits}
use sex.Cgroup.Program.{
  create_call, enable_call, ParentAnswer, after_enable, after_create, parent_initialiser, own,
  parent_program,
}
use sex.Cgroup.Program.Runs.{parent_program_runs}
use sex.Cgroup.Pool.{Group, OnGroup, first_group, IsQuiet, parent_discipline}
use sex.Flock.Guarded.Pool.Progress.{PoolGoesOn}
use sex.Cgroup.Pool.Ends.{IsFine, parent-PoolGoesOn}
use sex.Cgroup.Pool.Together.{next_creates, next_enables, parent_pool_together}

parent_program_runs_example :
    let k = counting [] no_digits in
    run_program
      (perform k.locks (k.parent_path (sbox_cgroup k)) (own k))
      (parent_program k.locks.sys)
      0
    ≡ initialize_parent_cgroup k 0
parent_program_runs_example = parent_program_runs (counting [] no_digits) 0

abbrev three : Reply
three = record { value = pos 3; errno = 0 }

abbrev fine : Reply
fine = record { value = pos 0; errno = 0 }

abbrev parent : Initialiser ParentAnswer
parent = parent_initialiser cgroup_sys

abbrev State : Type 0
State = Pool Group ParentAnswer

abbrev begun : State
begun = first_pool OnGroup cgroup_sys parent (first_group false)

abbrev both_open : State
both_open =
    goes_on_with (goes_on_with begun 0 begun.kernel (shared_program cgroup_sys parent (pos 3))) 1
      begun.kernel (shared_program cgroup_sys parent (pos 3))

-- Process 0 goes on alone.
abbrev zero_goes : State → Kernel Group → GuardProgram ParentAnswer → State
zero_goes x e p = goes_on_with x 0 e p

abbrev has_shared : State
has_shared =
    zero_goes both_open (locked both_open.kernel 0 shared) (first_program cgroup_sys parent (pos 3))

abbrev has_missed : State
has_missed = zero_goes has_shared has_shared.kernel (exclusive_program cgroup_sys parent (pos 3))

abbrev has_given_up : State
has_given_up = record has_missed { kernel = locked has_missed.kernel 0 free }

abbrev has_exclusive : State
has_exclusive =
    zero_goes has_given_up (locked has_given_up.kernel 0 exclusive) (second_program parent (pos 3))

abbrev missed_again : State
missed_again = zero_goes has_exclusive has_exclusive.kernel (then_leaves (pos 3) parent.create)

abbrev root_enabled : State
root_enabled =
    zero_goes missed_again missed_again.kernel
      (then_leaves (pos 3) (calls create_call (after_create cgroup_sys)))

abbrev made_kernel : Kernel Group
made_kernel = record root_enabled.kernel {
  own = record root_enabled.kernel.own { present = true; made = 1 };
}

abbrev has_made : State
has_made =
    zero_goes root_enabled made_kernel
      (then_leaves (pos 3) (calls enable_call (after_enable cgroup_sys)))

-- Eight calls of the two processes.
both_run : PoolRun OnGroup 2 begun 2 both_open
unfolding guarded_program
both_run =
    one_call
      (one_call no_calls 0 begun.kernel (shared_program cgroup_sys parent (pos 3)) (omega arith)
        (three, refl, refl))
      1 begun.kernel (shared_program cgroup_sys parent (pos 3)) (omega arith) (three, refl, refl)

missed_run : PoolRun OnGroup 2 begun 4 has_missed
missed_run =
    one_call
      (one_call both_run 0 has_shared.kernel (first_program cgroup_sys parent (pos 3)) (omega arith)
        (fine, inr (λ e. ground arith, λ u e. ground arith, refl), refl))
      0 has_missed.kernel (exclusive_program cgroup_sys parent (pos 3)) (omega arith)
      ((false, 0), (_, inr (refl, refl, refl), refl), refl)

exclusive_run : PoolRun OnGroup 2 begun 6 missed_again
exclusive_run =
    one_call
      (one_call (lock_taken missed_run 0 tt refl) 0 has_exclusive.kernel
        (second_program parent (pos 3)) (omega arith)
        (fine, inr (λ e. ground arith, λ u. ground arith, refl), refl))
      0 missed_again.kernel (then_leaves (pos 3) parent.create) (omega arith)
      ((false, 0), (_, inr (refl, refl, refl), refl), refl)

made_run : PoolRun OnGroup 2 begun 8 has_made
made_run =
    one_call
      (one_call exclusive_run 0 root_enabled.kernel
        (then_leaves (pos 3) (calls create_call (after_create cgroup_sys))) (omega arith)
        (true, (_, refl, refl), refl))
      0 made_kernel (then_leaves (pos 3) (calls enable_call (after_enable cgroup_sys)))
      (omega arith) ((true, 0), (_, inr (refl, refl), refl), refl)

has_made_reachable : ReachablePool OnGroup cgroup_sys parent (first_group false) has_made
has_made_reachable =
    PoolRun-reaches OnGroup cgroup_sys parent (first_group false) 2 begun pool_start 8 has_made
      made_run

parent_pool_together_example :
    (has_made.kernel.own.made ≤ 1)
    × ((has_returned (has_made.program 0) ≡ false) ⊎ (has_made.kernel.own.present ≡ true))
    × ((next_creates (has_made.program 0) ≡ false) ⊎ (has_made.kernel.own.present ≡ false))
    × ((next_enables (has_made.program 0) ≡ false)
        ⊎ (has_made.kernel.own.present ≡ true)
          × (has_made.kernel.own.enabled ≡ false)
          × (has_made.kernel.own.failed ≡ false))
    × (IsQuiet false has_made.kernel.own ⊎ ((v : ℕ) × (has_made.kernel.lock v ≡ exclusive)))
parent_pool_together_example = parent_pool_together cgroup_sys false has_made 0 has_made_reachable

abbrev zero_process : ℕ
zero_process = 0

guarded_pool_together_example :
    (IsQuiet false has_made.kernel.own ⊎ ((v : ℕ) × (has_made.kernel.lock v ≡ exclusive)))
    × ((has_returned (has_made.program 0) ≡ false) ⊎ (has_made.kernel.own.present ≡ true))
    × ((has_made.kernel.lock 0 ≢ exclusive) ⊎ (zero_process ≡ 1) ⊎ (has_made.kernel.lock 1 ≡ free))
guarded_pool_together_example =
    guarded_pool_together (parent_discipline cgroup_sys false) cgroup_sys has_made 0 1
      has_made_reachable

parent-PoolGoesOn_example : PoolGoesOn OnGroup IsFine has_made
unfolding guarded_program
parent-PoolGoesOn_example =
    parent-PoolGoesOn cgroup_sys false has_made 2 1 has_made_reachable (λ u h. ground arith) refl
