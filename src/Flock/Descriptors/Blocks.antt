-- ===== src/Flock/Descriptors/Blocks.antt =====
-- The blocks that declare a FileLockGuard, and the set of open descriptors (sex/util/flock.hpp).
use sex.Common.{String, Bool, true, not, ◌&&◌, ◌≡◌, ◌≢◌, ◌⊎◌, inl, inr, ap, ◌∙◌, arith}
use sex.Common.Int.{ℤ, minus_one, ◌==ℤ◌, ==ℤ→eq, ==ℤ_self}
use sex.Runtime.{Outcome, done, thrown, terminated, exited, Throws, Method, Action}
use sex.Fd.{FdHolder}
use sex.Fd
use sex.Fd.Ownership.{Closing}
use sex.Flock.{
  LockType, rw_lock, LockCalls, FileLockGuard, open_locked, destroy, scoped, leave_scope, lock,
  unlock, checked_under_lock,
}
use sex.Flock.Descriptors.{Opening, open_locked_cases, destroy_closes, lock_keeps, unlock_keeps}

module _ {W : Type 0} (k : LockCalls W) (c : Closing k.sys) (o : Opening k c) where
  open k use {sys}
  open c use {opened}

  -- A body that keeps the guard's descriptor, and what is open.
  abbrev pub Keeps : Method FileLockGuard W (Unit {0}) → Type 0
  Keeps body =
      (g : FileLockGuard) (w : W) (n : ℤ)
      → let (g', w') = (body (g, w)).1 in (g'.fd ≡ g.fd) × (opened w' n ≡ opened w n)

  destroy_no_throw : (g : FileLockGuard) (w : W) → ¬ Throws (destroy k (g, w)).0
  unfolding destroy Fd.destroy
  destroy_no_throw g w t = ground arith

  -- The end of the block closes the descriptor, if it is reached.
  left_scope :
      (r : Outcome (Unit {0})) (g : FileLockGuard) (w : W) (n : ℤ)
      → opened w g.fd.fd.number ≡ true
      → n ≢ minus_one
      → ((leave_scope k (r, g, w)).0 ≡ done tt) ⊎ Throws (leave_scope k (r, g, w)).0
      → opened (leave_scope k (r, g, w)).1 n ≡ (opened w n && not (g.fd.fd.number ==ℤ n))
  unfolding leave_scope
  left_scope (done _) g w n has h e =
      ground (arith, destroy_closes k c o g w n has h, destroy_no_throw g w)
  left_scope (thrown x) g w n has h e = ground (arith, destroy_closes k c o g w n has h)
  left_scope terminated g w n has h e = ground arith
  left_scope (exited x) g w n has h e = ground arith

  -- If open gives a descriptor that was not open, close closes, and flock touches no descriptor: a
  -- block that declares a guard, whose body keeps the guard's descriptor and leaves every other
  -- as it was, leaves the set of open descriptors as it was at its start, whether it returns or
  -- throws, and also where the constructor of the guard throws.
  pub scoped_closes :
      (path : String) (t : LockType) (body : Method FileLockGuard W (Unit {0})) (w : W) (n : ℤ)
      → Keeps body
      → n ≢ minus_one
      → let (r, w') = scoped k (open_locked k path t) body w in
        (r ≡ done tt) ⊎ Throws r → opened w' n ≡ opened w n
  unfolding scoped
  scoped_closes path t body w n keeps h e = elim (open_locked_cases k c o path t w) [
    | inr (x, same) ↦ ground (arith, same n h)
    | inl (g, w₁, made, (ne, new, more, u)) ↦
        let (g', w₂) = (body (g, w₁)).1 in
        let has : opened w₂ g'.fd.fd.number ≡ true =
          ap (λ (d : FdHolder). opened w₂ d.fd.number) (keeps g w₁ g.fd.fd.number).0
          ∙ (keeps g w₁ g.fd.fd.number).1
          ∙ ground (arith, more g.fd.fd.number, ==ℤ_self g.fd.fd.number) in
        let e' : ((leave_scope k ((body (g, w₁)).0, g', w₂)).0 ≡ done tt)
            ⊎ Throws (leave_scope k ((body (g, w₁)).0, g', w₂)).0 =
          ground arith in
        ground (
          arith,
          left_scope (body (g, w₁)).0 g' w₂ n has h e',
          keeps g w₁ n,
          more n,
          ==ℤ→eq g.fd.fd.number n,
        )
  ]

  -- The body of the two initialisers, whose actions leave the descriptors alone.
  pub checked_under_lock-Keeps :
      (check : Action W Bool) (create : Action W (Unit {0}))
      → ((w : W) (n : ℤ) → opened (check w).1 n ≡ opened w n)
      → ((w : W) (n : ℤ) → opened (create w).1 n ≡ opened w n)
      → Keeps (checked_under_lock k check create)
  unfolding checked_under_lock
  checked_under_lock-Keeps check create checks creates g w n =
      let w₁ = (check w).1 in
      let (g₂, w₂) = (unlock k (g, w₁)).1 in
      let (g₃, w₃) = (lock k rw_lock (g₂, w₂)).1 in
      let w₄ = (check w₃).1 in
      let (a, b) = unlock_keeps k c o g w₁ n in
      let (a', b') = lock_keeps k c o rw_lock g₂ w₂ n in
      ground (arith, checks w n, checks w₃ n, creates w₄ n, a, b, a', b')
