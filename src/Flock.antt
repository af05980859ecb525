-- ===== src/Flock.antt =====
-- sex/util/flock.hpp: FileLockGuard, which opens a path and holds a lock on it.
pub mod Descriptors
pub mod Laws
pub mod Scope
pub mod Guarded
pub mod Tests
use sex.Common.{ℕ, String, Bool, ◌==◌, if◌then◌else◌, not}
use sex.Common.Int.{ℤ}
use sex.Runtime.{
  Action, Method, Syscall, Sys, Outcome, done, thrown, terminated, exited, this, set_this, outside,
  assert, noexcept, pure, ◌>>=◌, ◌>>◌, at,
}
use sex.Result.{sex_syscall, ensure, unwrap}
use sex.Fd.{FdHolder, holder, get_int}
use sex.Fd

-- FileLockGuard::LockType; RLock is 0 and RWLock is 1.
pub data LockType : Type 0 where
  r_lock rw_lock : LockType

abbrev enumerator : LockType → ℕ
enumerator r_lock = 0
enumerator rw_lock = 1

-- `enum Unlocked { Unlocked }`: the one enumerator is 0.
abbrev unlocked_enumerator : ℕ
unlocked_enumerator = 0

-- FileLockGuard::State, by its underlying value: each constant is initialised from an enumerator
-- of the class.
pub record State : Type 0 where
  pub underlying : ℕ

abbrev pub state_r_lock : State
state_r_lock = record { underlying = enumerator r_lock }

abbrev pub state_rw_lock : State
state_rw_lock = record { underlying = enumerator rw_lock }

abbrev pub state_unlocked : State
state_unlocked = record { underlying = unlocked_enumerator }

-- FileLockGuard::toState
pub to_state : LockType → State
to_state r_lock = state_r_lock
to_state rw_lock = state_rw_lock

-- The operations of flock(2).
pub data FlockOp : Type 0 where
  lock_sh lock_ex lock_un : FlockOp

-- The `flag` that `lock` computes.
abbrev pub flag : LockType → FlockOp
flag r_lock = lock_sh
flag rw_lock = lock_ex

-- FileLockGuard
pub record FileLockGuard : Type 0 where
  pub fd : FdHolder
  pub current_state : State

-- The system calls: open for reading, flock, and those of `Sys`.
pub record LockCalls (W : Type 0) : Type 0 where
  pub sys : Sys W
  pub open_rdonly : String → Syscall W
  pub flock : ℤ → FlockOp → Syscall W

abbrev flock_hpp : String
flock_hpp = "sex/util/flock.hpp"

module _ {W : Type 0} (k : LockCalls W) where
  open k use {sys, open_rdonly, flock}

  -- FileLockGuard(const fs::path&), the private constructor.
  unfoldable pub open_guard : String → Action W FileLockGuard
  unfolding sex_syscall unwrap
  open_guard path = do
    r ←
        sex_syscall sys "open(path.c_str(), O_RDONLY)" (open_rdonly path)
          (at 62 "FileLockGuard" flock_hpp)
    fd ← unwrap r
    pure (record { fd = holder fd; current_state = state_unlocked })

  -- lock
  unfoldable pub lock : LockType → Method FileLockGuard W (Unit {0})
  unfolding sex_syscall ensure to_state
  lock lock_type = do
    g ← this
    assert (g.current_state.underlying == state_unlocked.underlying)
    outside (
        sex_syscall sys "flock(fd_.getInt(), flag)" (flock (get_int g.fd.fd) (flag lock_type))
          (at 44 "lock" flock_hpp)
        >>= ensure)
    set_this (record g { current_state = to_state lock_type })

  -- unlock
  unfoldable pub unlock : Method FileLockGuard W (Unit {0})
  unfolding sex_syscall ensure
  unlock = do
    g ← this
    let rest =
        outside (
          sex_syscall sys "flock(fd_.getInt(), LOCK_UN)" (flock (get_int g.fd.fd) lock_un)
            (at 52 "unlock" flock_hpp)
          >>= ensure)
        >> set_this (record g { current_state = state_unlocked })
    if g.current_state.underlying == state_unlocked.underlying then pure tt else rest

  -- The member `fd_`, as an object of its own.
  on_fd : {A : Type 0} → Method FdHolder W A → Method FileLockGuard W A
  on_fd m (g, w) = let (r, (h, w')) = m (g.fd, w) in (r, (record g { fd = h }, w'))

  -- ~FileLockGuard: its body, and then the destructor of `fd_`.
  unfoldable pub destroy : Method FileLockGuard W (Unit {0})
  unfolding unlock on_fd Fd.destroy
  destroy = do noexcept unlock; on_fd (Fd.destroy sys)

  -- The end of a constructor whose body has run on a complete object: if it threw, the object is
  -- destroyed and the exception goes on.
  unfoldable pub finish : Outcome (Unit {0}) × FileLockGuard × W → Outcome FileLockGuard × W
  unfolding destroy
  finish (done _, g, w) = (done g, w)
  finish (terminated, g, w) = (terminated, w)
  finish (exited n, g, w) = (exited n, w)
  finish (thrown e, g, w) =
      let (r, (g', w')) = destroy (g, w) in
      elim r [
        | done _ ↦ (thrown e, w')
        | thrown e' ↦ (terminated, w')
        | terminated ↦ (terminated, w')
        | exited n ↦ (exited n, w')
      ]

  -- FileLockGuard(const fs::path&, LockType)
  unfoldable pub open_locked : String → LockType → Action W FileLockGuard
  unfolding open_guard lock finish
  open_locked path t = do
    g ← open_guard path
    λ w. let (r, (g', w')) = lock t (g, w) in finish (r, g', w')

  -- FileLockGuard(const fs::path&, enum Unlocked)
  unfoldable open_unlocked : String → Action W FileLockGuard
  unfolding open_guard
  open_unlocked path = open_guard path

  -- The end of a block that has declared a guard, by reaching it, by `return` or by an exception.
  unfoldable pub leave_scope : Outcome (Unit {0}) × FileLockGuard × W → Outcome (Unit {0}) × W
  unfolding destroy
  leave_scope (done _, g, w) = let (r, (g', w')) = destroy (g, w) in (r, w')
  leave_scope (terminated, g, w) = (terminated, w)
  leave_scope (exited n, g, w) = (exited n, w)
  leave_scope (thrown e, g, w) =
      let (r, (g', w')) = destroy (g, w) in
      elim r [
        | done _ ↦ (thrown e, w')
        | thrown e' ↦ (terminated, w')
        | terminated ↦ (terminated, w')
        | exited n ↦ (exited n, w')
      ]

  -- A block that declares a guard and goes on with `body`.
  unfoldable pub scoped :
      Action W FileLockGuard → Method FileLockGuard W (Unit {0}) → Action W (Unit {0})
  unfolding leave_scope
  scoped make body = do g ← make; λ w. let (r, (g', w')) = body (g, w) in leave_scope (r, g', w')

  -- The initialisers of Container and CgroupController: `check` under a shared lock, and again
  -- under the exclusive one before `create`.
  unfoldable pub checked_under_lock :
      Action W Bool → Action W (Unit {0}) → Method FileLockGuard W (Unit {0})
  unfolding lock unlock
  checked_under_lock check create = do
    there ← outside check
    let second = do
      unlock
      lock rw_lock
      now_there ← outside check
      if now_there then pure tt else outside create
    if there then pure tt else second
