-- ===== src/Flock/Descriptors.antt =====
-- A FileLockGuard and the set of open descriptors (sex/util/flock.hpp).
pub mod Blocks
use sex.Common.{
  String, Bool, true, false, not, ◌&&◌, ◌||◌, ◌==◌, if◌then◌else◌, ◌≡◌, ◌≢◌, ◌⊎◌, inl, inr, refl,
  sym, ap, ◌∙◌, arith, Bool-cases,
}
use sex.Common.Int.{ℤ, minus_one, ◌==ℤ◌, ==ℤ→eq, ==ℤ→ne, ==ℤ_self}
use sex.Runtime.{Outcome, Exception, done, thrown, terminated, exited, Throws, Method, Action}
use sex.Fd.{FdHolder, holder}
use sex.Fd
use sex.Fd.Ownership.{Closing}
use sex.Fd.Ownership.Steps.{after_close, opened-after_close, destroy_lem}
use sex.Flock.{
  LockType, FlockOp, LockCalls, FileLockGuard, flag, lock_un, to_state, state_unlocked, open_guard,
  open_locked, lock, unlock, destroy, finish, scoped, on_fd, leave_scope,
}

-- What is documented of the calls: open gives a descriptor that was not open and opens it alone,
-- an open that fails and flock leave every descriptor as it was.
pub record Opening {W : Type 0} (k : LockCalls W) (c : Closing k.sys) : Type 0 where
  pub opens :
      (path : String) (w : W) (g : ℤ)
      → let (reply, w') = k.open_rdonly path w in
        reply.value ≢ minus_one
        → (c.opened w reply.value ≡ false) × (c.opened w' g ≡ (c.opened w g || reply.value ==ℤ g))
  pub open_fails :
      (path : String) (w : W) (g : ℤ)
      → let (reply, w') = k.open_rdonly path w in
        reply.value ≡ minus_one → c.opened w' g ≡ c.opened w g
  pub flock_keeps :
      (w : W) (fd : ℤ) (op : FlockOp) (g : ℤ) → c.opened (k.flock fd op w).1 g ≡ c.opened w g

module _ {W : Type 0} (k : LockCalls W) (c : Closing k.sys) (o : Opening k c) where
  open k use {sys, open_rdonly, flock}
  open c use {opened}
  open o use {opens, open_fails, flock_keeps}

  -- `lock` and `unlock` keep the descriptor, and what is open.
  pub lock_keeps :
      (t : LockType) (g : FileLockGuard) (w : W) (n : ℤ)
      → let (g', w') = (lock k t (g, w)).1 in (g'.fd ≡ g.fd) × (opened w' n ≡ opened w n)
  unfolding lock
  lock_keeps t g w n = ground (arith, flock_keeps w g.fd.fd.number (flag t) n)

  pub unlock_keeps :
      (g : FileLockGuard) (w : W) (n : ℤ)
      → let (g', w') = (unlock k (g, w)).1 in (g'.fd ≡ g.fd) × (opened w' n ≡ opened w n)
  unfolding unlock
  unlock_keeps g w n = ground (arith, flock_keeps w g.fd.fd.number lock_un n)

  -- The destructor closes the descriptor of the guard and no other, if it returns.
  pub destroy_closes :
      (g : FileLockGuard) (w : W) (n : ℤ)
      → opened w g.fd.fd.number ≡ true
      → n ≢ minus_one
      → (destroy k (g, w)).0 ≡ done tt
      → opened (destroy k (g, w)).1.1 n ≡ (opened w n && not (g.fd.fd.number ==ℤ n))
  unfolding destroy
  destroy_closes g w n has h e =
      let (g', w') = (unlock k (g, w)).1 in
      let (same, still) = unlock_keeps g w g.fd.fd.number in
      let has' : opened w' g'.fd.fd.number ≡ true =
        ap (λ (d : FdHolder). opened w' d.fd.number) same ∙ still ∙ has in
      let closed = opened-after_close sys c g'.fd.fd.number n w' (inr has') h in
      ground (arith, closed, unlock_keeps g w n, destroy_lem sys c g'.fd w' (inr has'))

  -- A new guard, and what is open besides.
  abbrev Opened : String → W → FileLockGuard × W → Type 0
  Opened path w (g, w') =
      (g.fd.fd.number ≢ minus_one)
      × (opened w g.fd.fd.number ≡ false)
      × ((n : ℤ) → opened w' n ≡ (opened w n || g.fd.fd.number ==ℤ n))
      × (g.current_state ≡ state_unlocked)

  guard_cases :
      (path : String) (w : W)
      → ((g : FileLockGuard) × (w' : W) × (open_guard k path w ≡ (done g, w'))
          × Opened path w (g, w'))
        ⊎ Throws (open_guard k path w).0 × ((n : ℤ) → opened (open_guard k path w).1 n ≡ opened w n)
  unfolding open_guard
  guard_cases path w = elim (Bool-cases ((open_rdonly path w).0.value ==ℤ minus_one)) [
    | inl e ↦ inr (ground arith, λ n. ground (arith, open_fails path w n (==ℤ→eq _ _ e)))
    | inr e ↦
        let ne = ==ℤ→ne _ _ e in
        inl (
          record { fd = holder (open_rdonly path w).0.value; current_state = state_unlocked },
          (open_rdonly path w).1,
          ground arith,
          (ne, (opens path w minus_one ne).0, λ n. (opens path w n ne).1, refl),
        )
  ]

  -- `lock` on a guard whose state is `Unlocked` returns, with that lock, or throws.
  lock_fresh :
      (t : LockType) (g : FileLockGuard) (w : W)
      → g.current_state ≡ state_unlocked
      → ((lock k t (g, w)).0 ≡ done tt)
          × ((lock k t (g, w)).1.0 ≡ record g { current_state = to_state t })
        ⊎ ((e : Exception) × ((lock k t (g, w)).0 ≡ thrown e)) × ((lock k t (g, w)).1.0 ≡ g)
  unfolding lock
  lock_fresh t g w u = ground arith

  opened_there :
      (path : String) (w : W) (s : FileLockGuard × W)
      → Opened path w s
      → opened s.1 s.0.fd.fd.number ≡ true
  opened_there path w (g, w₁) (ne, new, more, u) =
      ground (arith, more g.fd.fd.number, ==ℤ_self g.fd.fd.number)

  destroy_fresh :
      (g : FileLockGuard) (w : W)
      → g.current_state ≡ state_unlocked
      → opened w g.fd.fd.number ≡ true
      → (destroy k (g, w)).0 ≡ done tt
  unfolding destroy unlock
  destroy_fresh g w u has = ground (arith, destroy_lem sys c g.fd w (inr has))

  -- What is left when the constructor's body has thrown.
  closed_again :
      (path : String) (w : W) (g : FileLockGuard) (w₁ : W) (e : Exception)
      → Opened path w (g, w₁)
      → let (r, w') = finish k (thrown e, g, w₁) in
        Throws r × ((n : ℤ) → n ≢ minus_one → opened w' n ≡ opened w n)
  unfolding finish
  closed_again path w g w₁ e (ne, new, more, u) =
      let has = opened_there path w (g, w₁) (ne, new, more, u) in
      let returns = destroy_fresh g w₁ u has in
      (
        ground (arith, returns),
        λ n h.
            ground (
              arith,
              returns,
              destroy_closes g w₁ n has h returns,
              more n,
              ==ℤ→eq g.fd.fd.number n,
            ),
      )

  -- The guard that the constructor returns.
  abbrev pub Locked : String → LockType → W → FileLockGuard × W → Type 0
  Locked path t w (g, w') =
      (g.fd.fd.number ≢ minus_one)
      × (opened w g.fd.fd.number ≡ false)
      × ((n : ℤ) → opened w' n ≡ (opened w n || g.fd.fd.number ==ℤ n))
      × (g.current_state ≡ to_state t)

  pub open_locked_cases :
      (path : String) (t : LockType) (w : W)
      → ((g : FileLockGuard) × (w' : W) × (open_locked k path t w ≡ (done g, w'))
          × Locked path t w (g, w'))
        ⊎ Throws (open_locked k path t w).0
          × ((n : ℤ) → n ≢ minus_one → opened (open_locked k path t w).1 n ≡ opened w n)
  unfolding open_locked
  open_locked_cases path t w = elim (guard_cases path w) [
    | inr (x, same) ↦ inr (ground arith, λ n h. ground (arith, same n))
    | inl (g, w₁, e, (ne, new, more, u)) ↦
        let w₂ = (lock k t (g, w₁)).1.1 in
        let kept : (n : ℤ) → opened w₂ n ≡ (opened w n || g.fd.fd.number ==ℤ n) =
          λ n. (lock_keeps t g w₁ n).1 ∙ more n in
        elim (lock_fresh t g w₁ u) [
          | inl (r, same) ↦
              inl (record g { current_state = to_state t }, w₂, ground arith, (ne, new, kept, refl))
          | inr ((x, r), same) ↦
              let (throws, closed) = closed_again path w g w₂ x (ne, new, kept, u) in
              inr (ground arith, λ n h. ground (arith, closed n h))
        ]
  ]
