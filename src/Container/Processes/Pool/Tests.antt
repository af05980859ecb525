-- ===== src/Container/Processes/Pool/Tests.antt =====
-- Process 0 goes as far as create_directory, and makes the directory, while process 1 has opened
-- the lock file.
use sex.Common.{◌*◌, ℕ, true, false, ◌≤◌, ◌≡◌, ◌≢◌, ◌⊎◌, inr, refl, arith}
use sex.Common.Int.{pos}
use sex.Runtime.{done, Reply}
use sex.Flock.{lock_sh, lock_ex}
use sex.Flock.Laws.{free, shared, exclusive}
use sex.Container.Tests.{dir_sys}
use sex.Container.Program.{
  flock_call, Program, shared_program, first_program, exclusive_program, second_program,
  creating_program, leaves_exclusive,
}
use sex.Container.Processes.{Machine, Reachable}
use sex.Container.Processes.Pool.{
  Kernel, locked, with_directory, OnSbox, first_sbox, Happens, Pool, goes_on_with, first_pool,
  ReachablePool, pool_start,
}
use sex.Flock.Guarded.{guarded_program}
use sex.Flock.Guarded.Pool.Ends.{PoolRun, no_calls, one_call, lock_taken, PoolRun-reaches}
use sex.Flock.Guarded.Pool.Progress.{PoolGoesOn}
use sex.Container.Program.{sbox_initialiser}
use sex.Container.Processes.Pool.Ends.{IsFine, initialize_pool_ends, initialize-PoolGoesOn}
use sex.Container.Processes.Pool.Matches.{Matches}
use sex.Container.Processes.Pool.Simulates.{pool_refines}
use sex.Container.Processes.Pool.Together.{is_creating, pool_together}
use sex.Flock.Guarded.Pool.Together.{has_returned}

abbrev three : Reply
three = record { value = pos 3; errno = 0 }

abbrev fine : Reply
fine = record { value = pos 0; errno = 0 }

abbrev begun : Pool
begun = first_pool dir_sys false

abbrev both_open : Pool
both_open =
    goes_on_with (goes_on_with begun 0 begun.kernel (shared_program dir_sys (pos 3))) 1 begun.kernel
      (shared_program dir_sys (pos 3))

-- Process 0 goes on alone.
abbrev zero_goes : Pool → Kernel → Program → Pool
zero_goes x e p = goes_on_with x 0 e p

abbrev has_shared : Pool
has_shared = zero_goes both_open (locked both_open.kernel 0 shared) (first_program dir_sys (pos 3))

abbrev has_missed : Pool
has_missed = zero_goes has_shared has_shared.kernel (exclusive_program dir_sys (pos 3))

abbrev has_given_up : Pool
has_given_up = record has_missed { kernel = locked has_missed.kernel 0 free }

abbrev has_exclusive : Pool
has_exclusive =
    zero_goes has_given_up (locked has_given_up.kernel 0 exclusive) (second_program (pos 3))

abbrev is_about_to : Pool
is_about_to = zero_goes has_exclusive has_exclusive.kernel (creating_program (pos 3))

abbrev has_made : Pool
has_made =
    zero_goes is_about_to
      (record is_about_to.kernel { own = with_directory is_about_to.kernel.own })
      (leaves_exclusive (pos 3) (done tt))

-- Where nobody has an exclusive lock, the shared one is given.
gets_shared :
    (e : Kernel) (t : ℕ)
    → ((u : ℕ) → e.lock u ≢ exclusive)
    → Happens t e (flock_call (pos 3) lock_sh) fine (locked e t shared)
gets_shared e t nobody = inr (λ e. ground arith, nobody, refl)

gets_exclusive :
    (e : Kernel) (t : ℕ)
    → ((u : ℕ) → e.lock u ≡ free)
    → Happens t e (flock_call (pos 3) lock_ex) fine (locked e t exclusive)
gets_exclusive e t nobody = inr (λ e. ground arith, nobody, refl)

-- Seven calls of the two processes.
both_run : PoolRun OnSbox 2 begun 2 both_open
unfolding guarded_program
both_run =
    one_call
      (one_call no_calls 0 begun.kernel (shared_program dir_sys (pos 3)) (omega arith)
        (three, refl, refl))
      1 begun.kernel (shared_program dir_sys (pos 3)) (omega arith) (three, refl, refl)

missed_run : PoolRun OnSbox 2 begun 4 has_missed
missed_run =
    one_call
      (one_call both_run 0 (locked both_open.kernel 0 shared) (first_program dir_sys (pos 3))
        (omega arith) (fine, gets_shared both_open.kernel 0 (λ u e. ground arith), refl))
      0 has_shared.kernel (exclusive_program dir_sys (pos 3)) (omega arith)
      ((false, 0), (_, inr (refl, refl, refl), refl), refl)

exclusive_run : PoolRun OnSbox 2 begun 5 has_exclusive
exclusive_run =
    one_call (lock_taken missed_run 0 tt refl) 0 (locked has_given_up.kernel 0 exclusive)
      (second_program (pos 3)) (omega arith)
      (fine, gets_exclusive has_given_up.kernel 0 (λ u. ground arith), refl)

made_run : PoolRun OnSbox 2 begun 7 has_made
made_run =
    one_call
      (one_call exclusive_run 0 has_exclusive.kernel (creating_program (pos 3)) (omega arith)
        ((false, 0), (_, inr (refl, refl, refl), refl), refl))
      0 (record is_about_to.kernel { own = with_directory is_about_to.kernel.own })
      (leaves_exclusive (pos 3) (done tt)) (omega arith)
      ((true, 0), (_, inr (refl, refl), refl), refl)

has_made_reachable : ReachablePool dir_sys false has_made
has_made_reachable =
    PoolRun-reaches OnSbox dir_sys sbox_initialiser (first_sbox false) 2 begun pool_start 7 has_made
      made_run

pool_refines_example : (s : Machine) × Reachable false s × Matches dir_sys has_made s
pool_refines_example = pool_refines dir_sys false has_made has_made_reachable

pool_together_example :
    (has_made.kernel.own.created ≤ 1)
    × ((has_returned (has_made.program 0) ≡ false) ⊎ (has_made.kernel.own.present ≡ true))
    × ((is_creating (has_made.program 0) ≡ false) ⊎ (has_made.kernel.own.present ≡ false))
pool_together_example = pool_together dir_sys false has_made 0 has_made_reachable

initialize_pool_ends_example : 7 ≤ 8 * 2
initialize_pool_ends_example =
    initialize_pool_ends dir_sys false 2 7 begun has_made pool_start made_run

initialize-PoolGoesOn_example : PoolGoesOn OnSbox IsFine has_made
unfolding guarded_program
initialize-PoolGoesOn_example =
    initialize-PoolGoesOn dir_sys false has_made 2 1 has_made_reachable (λ u h. ground arith) refl
