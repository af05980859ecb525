-- ===== src/Flock/Laws.antt =====
-- What a FileLockGuard does to its lock (sex/util/flock.hpp).
use sex.Common.{◌≡◌, ◌≢◌, ◌⊎◌, inl, inr, refl, sym, ap, subst, ◌∙◌, arith, ◌==◌, Bool-cases}
use sex.Common.Int.{ℤ, minus_one, ◌==ℤ◌, ==ℤ→eq, ==ℤ→ne, ==ℤ_ne}
use sex.Runtime.{done, thrown, terminated, SourceLocation, at}
use sex.Result.{failure}
use sex.Fd.{get_int}
use sex.Flock.{
  LockType, r_lock, rw_lock, state_r_lock, state_unlocked, to_state, FlockOp, lock_sh, lock_ex,
  lock_un, flag, FileLockGuard, LockCalls, lock, unlock,
}

-- The lock that an open file description has.
pub data Mode : Type 0 where
  free shared exclusive : Mode

abbrev pub mode_of : FlockOp → Mode
mode_of lock_sh = shared
mode_of lock_ex = exclusive
mode_of lock_un = free

-- What is documented of flock: when it succeeds, the description has the lock that was asked for.
pub record Locking {W : Type 0} (k : LockCalls W) : Type 0 where
  pub lock_mode : W → ℤ → Mode
  pub flock_sets :
      (w : W) (fd : ℤ) (op : FlockOp)
      → (k.flock fd op w).0.value ≢ minus_one
      → lock_mode (k.flock fd op w).1 fd ≡ mode_of op

abbrev pub lock_at : SourceLocation
lock_at = at 44 "lock" "sex/util/flock.hpp"

abbrev descriptor : FileLockGuard → ℤ
descriptor g = get_int g.fd.fd

module _ {W : Type 0} (k : LockCalls W) (l : Locking k) (g : FileLockGuard) (w : W) where
  open k use {sys, flock}
  open l use {lock_mode}

  -- If flock gives what is asked of it when it succeeds: `lock` ends the program, without a call,
  -- on a guard whose state is not `Unlocked`; otherwise it throws the error if flock fails, with the
  -- guard as it was, and if not, the guard is in the state of the lock type and its descriptor has
  -- the lock of that type.
  pub lock_cases :
      (t : LockType)
      → let (reply, w') = flock (descriptor g) (flag t) w in
        (g.current_state.underlying ≢ 0) × (lock k t (g, w) ≡ (terminated, (g, w)))
        ⊎ (g.current_state.underlying ≡ 0)
          × (reply.value ≡ minus_one)
          × (lock k t (g, w)
              ≡ (thrown (failure sys "flock(fd_.getInt(), flag)" reply lock_at), (g, w')))
        ⊎ (g.current_state.underlying ≡ 0)
          × (lock k t (g, w) ≡ (done tt, (record g { current_state = to_state t }, w')))
          × (lock_mode w' (descriptor g) ≡ mode_of (flag t))
  unfolding lock
  lock_cases t = elim (Bool-cases (g.current_state.underlying == 0)) [
    | inr held ↦ inl (ground arith, ground arith)
    | inl fresh ↦ elim (Bool-cases ((flock (descriptor g) (flag t) w).0.value ==ℤ minus_one)) [
      | inl failed ↦ inr (inl (ground arith, ==ℤ→eq _ _ failed, ground arith))
      | inr fine ↦ inr (
          inr
            (ground arith, ground arith, l.flock_sets w (descriptor g) (flag t) (==ℤ→ne _ _ fine)))
    ]
  ]

module _ {W : Type 0} (k : LockCalls W) (l : Locking k) (g : FileLockGuard) (w : W) where
  open k use {sys, flock}
  open l use {lock_mode}

  -- If flock gives what is asked of it: a guard whose state is not `Unlocked` gives its lock up by
  -- `unlock` if flock succeeds: the lock is free and the state is `Unlocked`, so that `lock` may
  -- be called again.
  pub unlock_exclusive :
      g.current_state.underlying ≢ 0
      → (flock (descriptor g) lock_un w).0.value ≢ minus_one
      → let w' = (flock (descriptor g) lock_un w).1 in
        (unlock k (g, w) ≡ (done tt, (record g { current_state = state_unlocked }, w')))
        × (lock_mode w' (descriptor g) ≡ free)
  unfolding unlock
  unlock_exclusive held fine =
      (ground (arith, ==ℤ_ne _ _ fine), l.flock_sets w (descriptor g) lock_un fine)

  -- A guard whose state has the underlying value 0, as it is after `lock(RLock)`.
  abbrev Stuck : FileLockGuard × W → Type 0
  Stuck (g', w') =
      (unlock k (g', w') ≡ (done tt, (g', w')))
      × (lock_mode w' (descriptor g') ≡ shared)
      × ((lock k rw_lock (g', w')).0 ≢ terminated)

  unlock_zero :
      (s : FileLockGuard × W) → s.0.current_state.underlying ≡ 0 → unlock k s ≡ (done tt, s)
  unfolding unlock
  unlock_zero (g', w') z = ground arith

  lock_zero :
      (t : LockType) (s : FileLockGuard × W)
      → s.0.current_state.underlying ≡ 0
      → (lock k t s).0 ≢ terminated
  unfolding lock
  lock_zero t (g', w') z = ground arith

module _ {W : Type 0} (k : LockCalls W) (l : Locking k) (g : FileLockGuard) (w : W) where
  open l use {lock_mode}

  -- The constants `State::RLock` and `State::Unlocked` are equal: after a successful
  -- `lock(RLock)`, where flock gives what is asked of it, `unlock` returns at once, changes neither
  -- the guard nor the world, and the descriptor keeps the shared lock; and a further
  -- `lock(RWLock)` passes its assertion.
  pub unlock_after_r_lock :
      (g' : FileLockGuard) (w' : W)
      → lock k r_lock (g, w) ≡ (done tt, (g', w'))
      → (unlock k (g', w') ≡ (done tt, (g', w')))
        × (lock_mode w' (descriptor g') ≡ shared)
        × ((lock k rw_lock (g', w')).0 ≢ terminated)
  unfolding to_state
  unlock_after_r_lock g' w' e = elim (lock_cases k l g w r_lock) [
    | inl r ↦ cc (r.1, e)
    | inr (inl r) ↦ cc (r.2, e)
    | inr (inr r) ↦
        let s : FileLockGuard × W =
          (record g { current_state = state_r_lock }, (k.flock (descriptor g) lock_sh w).1) in
        let same : s ≡ (g', w') = ap (λ t. t.1) (sym r.1 ∙ e) in
        subst (Stuck k l g w) same
          (unlock_zero k l g w s refl, r.2, lock_zero k l g w rw_lock s refl)
  ]
