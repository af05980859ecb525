-- ===== src/Flock/Guarded/Runs.antt =====
-- The guarded program is the code of the block that the initialisers share (sex/util/flock.hpp).
use sex.Common.{
  String, Bool, true, false, Bool-cases, inl, inr, if◌then◌else◌, ◌≡◌, ◌≢◌, refl, sym, ◌∙◌, arith,
}
use sex.Common.Int.{ℤ, minus_one, ◌==ℤ◌, ==ℤ_ne, ==ℤ→eq, ==ℤ→ne}
use sex.Runtime.{
  ◌>>=◌, ◌>>◌, pure, Outcome, done, thrown, terminated, exited, Action, Method, outside,
}
use sex.Result.{Result, ok, error}
use sex.Calls.{CallProgram, ends, calls, run_program}
use sex.Fd.{holder}
use sex.Flock.{
  LockCalls, FileLockGuard, State, state_r_lock, state_rw_lock, state_unlocked, r_lock, rw_lock,
  lock, unlock, leave_scope, open_locked, scoped, finish, checked_under_lock, lock_ex, lock_sh,
}
use sex.Flock.Guarded.{
  GuardCall, open_call, flock_call, close_call, own_call, GuardAnswer, Initialiser, outcome_of,
  flock_failure, leaves, leaves_exclusive, then_leaves, after_second, second_program,
  exclusive_program, after_first, first_program, shared_program, guarded_program,
}

abbrev guard : ℤ → State → FileLockGuard
guard fd state = record { fd = holder fd; current_state = state }

-- The outcomes of the block, with which its guard is destroyed.
abbrev Left : Outcome (Unit {0}) → Type 0
Left (done _) = Unit
Left (thrown e) = Unit
Left _ = ⊥

outcome-Left : (r : Result (Unit {0})) → Left (outcome_of r)
outcome-Left (ok u) = tt
outcome-Left (error e) = tt

module _ {W C : Type 0} {A : C → Type 0} (locks : LockCalls W) (path : String)
    (own : (c : C) → W → A c × W) where
  -- The calls, made in one process.
  abbrev pub perform : (c : GuardCall C) → W → GuardAnswer A c × W
  perform open_call w = locks.open_rdonly path w
  perform (flock_call fd op) w = locks.flock fd op w
  perform (close_call fd) w = locks.sys.close fd w
  perform (own_call c) w = own c w

module _ {W C : Type 0} {A : C → Type 0} (locks : LockCalls W) (path : String)
    (own : (c : C) → W → A c × W) (fd : ℤ) (valid : fd ≢ minus_one) where
  leaves_lem :
      (r : Outcome (Unit {0})) (state : State) (w : W)
      → state.underlying ≡ 0
      → Left r
      → run_program (perform locks path own) (leaves fd r) w
        ≡ leave_scope locks (r, guard fd state, w)
  unfolding run_program leave_scope
  leaves_lem (done _) state w z l = ground (arith, ==ℤ_ne _ _ valid)
  leaves_lem (thrown e) state w z l = ground (arith, ==ℤ_ne _ _ valid)
  leaves_lem terminated state w z l = elim l [ ]
  leaves_lem (exited n) state w z l = elim l [ ]

  leaves_exclusive_lem :
      (r : Outcome (Unit {0})) (w : W)
      → Left r
      → run_program (perform locks path own) (leaves_exclusive fd r) w
        ≡ leave_scope locks (r, guard fd state_rw_lock, w)
  unfolding run_program leave_scope
  leaves_exclusive_lem (done _) w l = ground (arith, ==ℤ_ne _ _ valid)
  leaves_exclusive_lem (thrown e) w l = ground (arith, ==ℤ_ne _ _ valid)
  leaves_exclusive_lem terminated w l = elim l [ ]
  leaves_exclusive_lem (exited n) w l = elim l [ ]

  -- The rest of the making, and then the end of the block.
  then_leaves_lem :
      (p : CallProgram C A (Result (Unit {0}))) (w : W)
      → let (r, w') = run_program own p w in
        run_program (perform locks path own) (then_leaves fd p) w
        ≡ leave_scope locks (outcome_of r, guard fd state_rw_lock, w')
  unfolding run_program
  then_leaves_lem (ends r) w = leaves_exclusive_lem (outcome_of r) w (outcome-Left r)
  then_leaves_lem (calls c f) w = let (a, w') = own c w in then_leaves_lem (f a) w'

  module _ (i : Initialiser A) (check : Action W Bool) (create : Action W (Unit {0}))
      (checks : (w : W) → let (a, w') = own i.check w in check w ≡ (outcome_of (i.found a), w'))
      (creates : (w : W)
        → let (r, w') = run_program own i.create w in create w ≡ (outcome_of r, w')) where
    -- A part of the body of the block, and then the end of the block.
    abbrev in_block : Method FileLockGuard W (Unit {0}) → State → W → Outcome (Unit {0}) × W
    in_block body state w =
        let (r, (g, w')) = body (guard fd state, w) in leave_scope locks (r, g, w')

    created_lem :
        (r : Result (Unit {0})) (w w' : W)
        → create w ≡ (outcome_of r, w')
        → leave_scope locks (outcome_of r, guard fd state_rw_lock, w')
          ≡ in_block (outside create) state_rw_lock w
    created_lem (ok u) w w' h = rw h refl
    created_lem (error e) w w' h = rw h refl

    abbrev second_part : Method FileLockGuard W (Unit {0})
    second_part = do now_there ← outside check; if now_there then pure tt else outside create

    after_second_lem :
        (r : Result Bool) (w w' : W)
        → check w ≡ (outcome_of r, w')
        → run_program (perform locks path own) (after_second i fd r) w'
          ≡ in_block second_part state_rw_lock w
    after_second_lem (ok true) w w' h = ground (arith, h, leaves_exclusive_lem (done tt) w' tt)
    after_second_lem (ok false) w w' h =
        let (r, w'') = run_program own i.create w' in
        ground (arith, h, then_leaves_lem i.create w' ∙ created_lem r w' w'' (creates w'))
    after_second_lem (error e) w w' h = ground (arith, h, leaves_exclusive_lem (thrown e) w' tt)

    second_lem :
        (w : W)
        → run_program (perform locks path own) (second_program i fd) w
          ≡ in_block second_part state_rw_lock w
    unfolding run_program
    second_lem w = let (a, w') = own i.check w in after_second_lem (i.found a) w w' (checks w)

    abbrev exclusive_part : Method FileLockGuard W (Unit {0})
    exclusive_part = do lock locks rw_lock; second_part

    exclusive_lem :
        (w : W)
        → run_program (perform locks path own) (exclusive_program locks.sys i fd) w
          ≡ in_block exclusive_part state_r_lock w
    unfolding run_program lock
    exclusive_lem w =
        let (a, w') = locks.flock fd lock_ex w in
        ground (
          arith,
          second_lem w',
          leaves_lem (thrown (flock_failure locks.sys a)) state_r_lock w' refl tt,
        )

    abbrev body : Method FileLockGuard W (Unit {0})
    body = checked_under_lock locks check create

    after_first_lem :
        (r : Result Bool) (w w' : W)
        → check w ≡ (outcome_of r, w')
        → run_program (perform locks path own) (after_first locks.sys i fd r) w'
          ≡ in_block body state_r_lock w
    unfolding checked_under_lock unlock
    after_first_lem (ok true) w w' h =
        ground (arith, h, leaves_lem (done tt) state_r_lock w' refl tt)
    after_first_lem (ok false) w w' h = ground (arith, h, exclusive_lem w')
    after_first_lem (error e) w w' h =
        ground (arith, h, leaves_lem (thrown e) state_r_lock w' refl tt)

    first_lem :
        (w : W)
        → run_program (perform locks path own) (first_program locks.sys i fd) w
          ≡ in_block body state_r_lock w
    unfolding run_program
    first_lem w = let (a, w') = own i.check w in after_first_lem (i.found a) w w' (checks w)

module _ {W C : Type 0} {A : C → Type 0} (locks : LockCalls W) (path : String)
    (own : (c : C) → W → A c × W) (i : Initialiser A) (check : Action W Bool)
    (create : Action W (Unit {0}))
    (checks : (w : W) → let (a, w') = own i.check w in check w ≡ (outcome_of (i.found a), w'))
    (creates : (w : W)
      → let (r, w') = run_program own i.create w in create w ≡ (outcome_of r, w')) where
  abbrev block : Action W (Unit {0})
  block = scoped locks (open_locked locks path r_lock) (checked_under_lock locks check create)

  -- From `lock(RLock)` on.
  opened_lem :
      (fd : ℤ) (w : W)
      → fd ≢ minus_one
      → (locks.open_rdonly path w).0.value ≡ fd
      → block w
        ≡ run_program
            (perform locks path own)
            (shared_program locks.sys i fd)
            (locks.open_rdonly path w).1
  unfolding run_program lock scoped open_locked finish
  opened_lem fd w valid e =
      let w₁ = (locks.open_rdonly path w).1 in
      let (a, w₂) = locks.flock fd lock_sh w₁ in
      ground (
        arith,
        ==ℤ_ne _ _ valid,
        first_lem locks path own fd valid i check create checks creates w₂,
        leaves_lem locks path own fd valid (thrown (flock_failure locks.sys a)) state_unlocked w₂
            refl tt,
      )

  open_fails_lem :
      (w : W)
      → (locks.open_rdonly path w).0.value ≡ minus_one
      → run_program (perform locks path own) (guarded_program locks.sys i) w ≡ block w
  unfolding guarded_program run_program scoped open_locked
  open_fails_lem w e = ground arith

  open_done_lem :
      (w : W)
      → let (reply, w') = locks.open_rdonly path w in
        reply.value ≢ minus_one
        → run_program (perform locks path own) (guarded_program locks.sys i) w
          ≡ run_program (perform locks path own) (shared_program locks.sys i reply.value) w'
  unfolding guarded_program run_program
  open_done_lem w n = ground (arith, ==ℤ_ne _ _ n)

  -- If the check and the making are the code that their programs stand for, the guarded program is
  -- the block.
  pub guarded_program_runs :
      (w : W) → run_program (perform locks path own) (guarded_program locks.sys i) w ≡ block w
  guarded_program_runs w =
      let (reply, w') = locks.open_rdonly path w in
      elim (Bool-cases (reply.value ==ℤ minus_one)) [
        | inl e ↦ open_fails_lem w (==ℤ→eq _ _ e)
        | inr e ↦ let n = ==ℤ→ne _ _ e in open_done_lem w n ∙ sym (opened_lem reply.value w n refl)
      ]
