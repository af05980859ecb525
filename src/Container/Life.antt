-- ===== src/Container/Life.antt =====
-- The directories of containers (sex/container.cpp).
use sex.Common.{Bool, true, false, ◌≡◌, ◌≢◌, ◌⊎◌, inl, inr, arith, Bool-cases, ◌∙◌, ap}
use sex.Common.Int.{ℤ, minus_one, ◌==ℤ◌, ==ℤ→ne}
use sex.Runtime.{done, thrown, terminated, filesystem_error}
use sex.Flock.{
  FlockOp, FileLockGuard, open_locked, checked_under_lock, destroy, lock, unlock, lock_un, rw_lock,
  r_lock,
}
use sex.Flock.Scope.{scope_done}
use sex.Fd.{FdHolder, get_int}
use sex.Fd
use sex.Container.{
  Container, ContainerCalls, initialize, check_sbox, make_directory, remove_container,
  destroy_container, enter_container,
}

module _ {W : Type 0} (k : ContainerCalls W) (c : Container) (w : W) where
  open k use {remove_all, chroot, chdir, locks}

  -- The destructor does nothing to a container that was removed; otherwise it removes the directory
  -- and marks the object, or ends the program if remove_all fails. It never throws. `remove` does
  -- the same on a container that was not removed, but throws the error, and ends the program on one
  -- that was.
  pub destroy_container_cases :
      let ((count, code), w') = remove_all c.container_path w in
      (c.removed ≡ true)
        × (destroy_container k (c, w) ≡ (done tt, (c, w)))
        × (remove_container k (c, w) ≡ (terminated, (c, w)))
      ⊎ (c.removed ≡ false)
        × (code ≡ 0)
        × (destroy_container k (c, w) ≡ (done tt, (record c { removed = true }, w')))
        × (remove_container k (c, w) ≡ (done tt, (record c { removed = true }, w')))
      ⊎ (c.removed ≡ false)
        × (code ≢ 0)
        × (destroy_container k (c, w) ≡ (terminated, (c, w')))
        × (remove_container k (c, w) ≡ (thrown (filesystem_error code), (c, w')))
  unfolding destroy_container remove_container
  destroy_container_cases = ground arith

  -- When `enter` returns, chroot to the container's path has succeeded first, and then chdir to the
  -- root: the process is inside in every path it names.
  enter_container_lem :
      (w' : W)
      → enter_container k c w ≡ (done tt, w')
      → let (rooted, w₁) = chroot c.container_path w in
        let (moved, w₂) = chdir "/" w₁ in
        (rooted.value ≢ minus_one) × (moved.value ≢ minus_one) × (w' ≡ w₂)
  unfolding enter_container
  enter_container_lem w' e = elim (Bool-cases ((chroot c.container_path w).0.value ==ℤ minus_one)) [
    | inl a ↦ absurd (ground arith)
    | inr a ↦ elim (Bool-cases ((chdir "/" (chroot c.container_path w).1).0.value ==ℤ minus_one)) [
      | inl b ↦ absurd (ground arith)
      | inr b ↦ (==ℤ→ne _ _ a, ==ℤ→ne _ _ b, ground arith)
    ]
  ]

-- What is documented of the file system, for one path: create_directory without an error leaves a
-- directory there, `exists` without an error says whether there is one, and neither closing the
-- lock file nor unlocking it removes one.
pub record Present {W : Type 0} (k : ContainerCalls W) : Type 0 where
  pub present : W → Bool
  pub created :
      (w : W)
      → (k.create_directory k.tmp_sbox w).0.1 ≡ 0
      → present (k.create_directory k.tmp_sbox w).1 ≡ true
  pub reported :
      (w : W)
      → (k.exists k.tmp_sbox w).0.1 ≡ 0
      → present (k.exists k.tmp_sbox w).1 ≡ (k.exists k.tmp_sbox w).0.0
  pub close_keeps : (w : W) (fd : ℤ) → present (k.locks.sys.close fd w).1 ≡ present w
  pub flock_keeps : (w : W) (fd : ℤ) (op : FlockOp) → present (k.locks.flock fd op w).1 ≡ present w

module _ {W : Type 0} (k : ContainerCalls W) (p : Present k) where
  open k use {locks}
  open p use {present}

  unlock_keeps : (g : FileLockGuard) (w : W) → present (unlock locks (g, w)).1.1 ≡ present w
  unfolding unlock
  unlock_keeps g w = ground (arith, p.flock_keeps w (get_int g.fd.fd) lock_un)

  fd_destroy_keeps : (h : FdHolder) (w : W) → present (Fd.destroy locks.sys (h, w)).1.1 ≡ present w
  unfolding Fd.destroy
  fd_destroy_keeps h w = ground (arith, p.close_keeps w (get_int h.fd))

  -- The destructor of the lock keeps what is there.
  destroy_keeps : (g : FileLockGuard) (w : W) → present (destroy locks (g, w)).1.1 ≡ present w
  unfolding destroy
  destroy_keeps g w = ground (
    arith,
    unlock_keeps g w,
    fd_destroy_keeps (unlock locks (g, w)).1.0.fd (unlock locks (g, w)).1.1,
  )

  check_present : (w : W) → (check_sbox k w).0 ≡ done true → present (check_sbox k w).1 ≡ true
  unfolding check_sbox
  check_present w e = ground (arith, p.reported w)

  make_present :
      (w : W)
      → (make_directory k k.tmp_sbox w).0 ≡ done tt
      → present (make_directory k k.tmp_sbox w).1 ≡ true
  unfolding make_directory
  make_present w e = ground (arith, p.created w)

  body_present :
      (g : FileLockGuard) (w : W)
      → (checked_under_lock locks (check_sbox k) (make_directory k k.tmp_sbox) (g, w)).0 ≡ done tt
      → present (checked_under_lock locks (check_sbox k) (make_directory k k.tmp_sbox) (g, w)).1.1
        ≡ true
  unfolding checked_under_lock
  body_present g w e =
      let s₁ = (unlock locks (g, (check_sbox k w).1)).1 in
      let s₂ = (lock locks rw_lock s₁).1 in
      ground (arith, check_present w, check_present s₂.1, make_present (check_sbox k s₂.1).1)

  -- If the file system does what is documented: when the action of `Initialize` returns, on whichever
  -- of its three ways, the directory TmpSbox is there.
  pub initialize_creates : (w w' : W) → initialize k w ≡ (done tt, w') → present w' ≡ true
  unfolding initialize
  initialize_creates w w' e =
      let body = checked_under_lock locks (check_sbox k) (make_directory k k.tmp_sbox) in
      let (g, w₁, _, ran, left) =
        scope_done locks (open_locked locks (k.parent_path k.tmp_sbox) r_lock) body w w' e in
      let (g', w₂) = (body (g, w₁)).1 in
      ap present left ∙ destroy_keeps g' w₂ ∙ body_present g w₁ ran
