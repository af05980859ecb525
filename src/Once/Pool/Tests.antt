-- ===== src/Once/Pool/Tests.antt =====
-- Thread 0 runs the action, while thread 1 waits for the mutex.
use sex.Common.{ℕ, suc, ◌*◌, true, false, some, ◌≤◌, ◌≡◌, ◌≢◌, ◌⊎◌, refl, arith}
use sex.Runtime.{Action, done}
use sex.Calls.{run_program}
use sex.Once.{fresh_once, invoke}
use sex.Once.Program.{
  perform, once_program, locks, checks_again, acts, stores, unlocks, once_program_runs,
}
use sex.Once.Threads.{System, Reachable}
use sex.Once.Pool.{Pool, goes_on_with, advances, first_pool, ReachablePool, pool_start, pool_after}
use sex.Once.Pool.Simulates.{Matches, once_pool_refines}
use sex.Once.Pool.Together.{has_returned, next_locks, next_acts, next_unlocks, once_pool_together}
use sex.Once.Pool.Progress.{
  PoolRun, no_calls, one_call, once_pool_ends, PoolGoesOn, once-PoolGoesOn,
}

-- An action that counts its calls.
abbrev counts : Action ℕ (Unit {0})
counts w = (done tt, suc w)

once_program_runs_example :
    run_program (perform counts) once_program (fresh_once, 0) ≡ invoke counts (fresh_once, 0)
once_program_runs_example = once_program_runs counts fresh_once 0

abbrev loaded : Pool
loaded = goes_on_with first_pool 0 first_pool.memory locks

abbrev both_loaded : Pool
both_loaded = goes_on_with loaded 1 loaded.memory locks

abbrev has_lock : Pool
has_lock = goes_on_with both_loaded 0 (record both_loaded.memory { owner = some 0 }) checks_again

abbrev may_act : Pool
may_act = goes_on_with has_lock 0 has_lock.memory acts

abbrev has_acted : Pool
has_acted = goes_on_with may_act 0 (record may_act.memory { completed = 1 }) stores

abbrev may_unlock : Pool
may_unlock =
    goes_on_with has_acted 0 (record has_acted.memory { invoked = true }) (unlocks (done tt))

-- The first four calls.
abbrev begins : PoolRun 2 first_pool 4 may_act
begins =
    one_call
      (one_call
        (one_call (one_call no_calls 0 _ _ (omega arith) (false, (refl, refl), refl)) 1 _ _
          (omega arith) (false, (refl, refl), refl))
        0 _ _ (omega arith) (tt, (refl, refl), refl))
      0 _ _ (omega arith) (false, (refl, refl), refl)

-- Every run from the beginning ends in a state that is reached.
run_reached : {n : ℕ} (k : ℕ) (x : Pool) → PoolRun n first_pool k x → ReachablePool x
run_reached k x no_calls = pool_start
run_reached _ _ (one_call {k} {y} r t m p h a) =
    pool_after y _ (run_reached k y r) (advances t m p a)

may_unlock_reached : ReachablePool may_unlock
may_unlock_reached =
    pool_after has_acted _
      (pool_after may_act _ (run_reached 4 may_act begins) (advances 0 _ _ (done tt, refl, refl)))
      (advances 0 _ _ (tt, refl, refl))

once_pool_refines_example : (s : System) × Reachable s × Matches may_unlock s
once_pool_refines_example = once_pool_refines may_unlock may_unlock_reached

abbrev zero_thread : ℕ
zero_thread = 0

once_pool_together_example :
    (may_unlock.memory.completed ≤ 1)
    × ((has_returned (may_unlock.program 0) ≡ false) ⊎ (may_unlock.memory.completed ≡ 1))
    × ((next_acts (may_unlock.program 0) ≡ false) ⊎ (may_unlock.memory.completed ≡ 0))
    × ((next_acts (may_unlock.program 0) ≡ false)
        ⊎ (next_acts (may_unlock.program 1) ≡ false)
        ⊎ (zero_thread ≡ 1))
    × ((next_locks (may_unlock.program 0) ≡ false) ⊎ (may_unlock.memory.owner ≢ some 0))
    × ((next_unlocks (may_unlock.program 0) ≡ false) ⊎ (may_unlock.memory.owner ≡ some 0))
once_pool_together_example = once_pool_together may_unlock 0 1 may_unlock_reached

once_pool_ends_example : 4 ≤ 6 * 2
once_pool_ends_example = once_pool_ends 2 4 first_pool may_act pool_start begins

-- Thread 1 waits while thread 0 has the mutex.
once-PoolGoesOn_example : PoolGoesOn may_unlock
once-PoolGoesOn_example = once-PoolGoesOn may_unlock 1 may_unlock_reached refl
