-- ===== src/Container/Descriptors.antt =====
-- The initialisation of the containers' directory, and the set of open descriptors
-- (sex/container.cpp).
use sex.Common.{String, ◌≡◌, ◌≢◌, ◌⊎◌, arith}
use sex.Common.Int.{ℤ, minus_one}
use sex.Runtime.{done, Throws}
use sex.Fd.Ownership.{Closing}
use sex.Flock.{r_lock, checked_under_lock}
use sex.Flock.Descriptors.{Opening}
use sex.Flock.Descriptors.Blocks.{scoped_closes, checked_under_lock-Keeps}
use sex.Container.{ContainerCalls, initialize, check_sbox, make_directory}

-- The functions of std::filesystem leave the descriptors of the process as they were.
pub record Apart {W : Type 0} (k : ContainerCalls W) (c : Closing k.locks.sys) : Type 0 where
  pub exists_keeps : (path : String) (w : W) (n : ℤ) → c.opened (k.exists path w).1 n ≡ c.opened w n
  pub create_keeps :
      (path : String) (w : W) (n : ℤ) → c.opened (k.create_directory path w).1 n ≡ c.opened w n

module _ {W : Type 0} (k : ContainerCalls W) (c : Closing k.locks.sys) (o : Opening k.locks c)
    (a : Apart k c) where
  open c use {opened}

  check_keeps : (w : W) (n : ℤ) → opened (check_sbox k w).1 n ≡ opened w n
  unfolding check_sbox
  check_keeps w n = ground (arith, a.exists_keeps k.tmp_sbox w n)

  make_keeps : (w : W) (n : ℤ) → opened (make_directory k k.tmp_sbox w).1 n ≡ opened w n
  unfolding make_directory
  make_keeps w n = ground (arith, a.create_keeps k.tmp_sbox w n)

  -- If open gives a descriptor that was not open, close closes, and flock and std::filesystem touch
  -- no descriptor: the action of `Initialize` leaves the set of open descriptors as it was, on all
  -- its ways: both early returns, the end, and every exception, that of the lock's constructor
  -- included.
  pub initialize_closes :
      (w : W) (n : ℤ)
      → n ≢ minus_one
      → let (r, w') = initialize k w in (r ≡ done tt) ⊎ Throws r → opened w' n ≡ opened w n
  unfolding initialize
  initialize_closes w n h e =
      scoped_closes k.locks c o (k.parent_path k.tmp_sbox) r_lock
        (checked_under_lock k.locks (check_sbox k) (make_directory k k.tmp_sbox)) w n
        (checked_under_lock-Keeps k.locks c o (check_sbox k) (make_directory k k.tmp_sbox)
          check_keeps make_keeps)
        h e
