-- ===== src/Flock/Scope.antt =====
-- What a block that declares a FileLockGuard leaves (sex/util/flock.hpp).
use sex.Common.{◌≡◌, refl, arith}
use sex.Runtime.{Action, Method, Outcome, done, thrown, terminated, exited}
use sex.Flock.{LockCalls, FileLockGuard, destroy, scoped}

module _ {W : Type 0} (k : LockCalls W) (make : Action W FileLockGuard)
    (body : Method FileLockGuard W (Unit {0})) (w w' : W) where
  -- A block that returns has made its guard, and its body has returned; what it leaves is what the
  -- guard's destructor leaves.
  abbrev ScopeDone : Type 0
  ScopeDone =
      (g : FileLockGuard) × (w₁ : W) × (make w ≡ (done g, w₁))
      × ((body (g, w₁)).0 ≡ done tt)
      × (w' ≡ (destroy k (body (g, w₁)).1).1.1)

  scope_cases :
      (r : Outcome FileLockGuard) (w₁ : W)
      → make w ≡ (r, w₁)
      → scoped k make body w ≡ (done tt, w')
      → ScopeDone
  unfolding scoped
  scope_cases (done g) w₁ m e = (g, w₁, m, ground arith, ground arith)
  scope_cases (thrown x) w₁ m e = absurd (ground arith)
  scope_cases terminated w₁ m e = absurd (ground arith)
  scope_cases (exited n) w₁ m e = absurd (ground arith)

  pub scope_done : scoped k make body w ≡ (done tt, w') → ScopeDone
  scope_done e = scope_cases (make w).0 (make w).1 refl e
