-- ===== src/Container.antt =====
-- sex/container.{hpp,cpp}: Container, a directory to change the root to.
pub mod Descriptors
pub mod Life
pub mod Lifetime
pub mod Processes
pub mod Program
pub mod Tests
use sex.Common.{ℕ, String, Bool, true, false, not, ◌==◌, if◌then◌else◌}
use sex.Common.Int.{ℤ}
use sex.Runtime.{
  Action, Method, Syscall, Sys, filesystem_error, throw, this, set_this, outside, assert, noexcept,
  when, pure, ◌>>=◌, ◌>>◌, at,
}
use sex.Result.{sex_syscall, ensure}
use sex.Flock.{LockCalls, FileLockGuard, r_lock, open_locked, scoped, checked_under_lock}
use sex.Once.{Once, invoke}

-- A function of std::filesystem that throws: its result, and the code of the error, 0 for none.
abbrev pub fs_call : {W A : Type 0} → (W → (A × ℕ) × W) → Action W A
fs_call f w =
    let ((a, code), w') = f w in (if code == 0 then pure a else throw (filesystem_error code)) w'

-- Container
pub record Container : Type 0 where
  pub container_path : String
  pub removed : Bool

-- getPath
abbrev get_path : Container → String
get_path c = c.container_path

-- What a container calls: those of its lock; exists, create_directory and remove_all of
-- std::filesystem; chroot and chdir; the directory TmpSbox below the temporary directory; and
-- path::parent_path and operator/ on paths.
pub record ContainerCalls (W : Type 0) : Type 0 where
  pub locks : LockCalls W
  pub exists : String → W → (Bool × ℕ) × W
  pub create_directory : String → W → (Bool × ℕ) × W
  pub remove_all : String → W → (ℕ × ℕ) × W
  pub chroot : String → Syscall W
  pub chdir : String → Syscall W
  pub tmp_sbox : String
  pub parent_path : String → String
  pub join : String → String → String

abbrev container_cpp : String
container_cpp = "sex/container.cpp"

module _ {W : Type 0} (k : ContainerCalls W) where
  open k use {
    locks, exists, create_directory, remove_all, chroot, chdir, tmp_sbox, parent_path, join,
  }

  -- The lambda `check`.
  check_sbox : Action W Bool
  check_sbox = fs_call (exists tmp_sbox)

  make_directory : String → Action W (Unit {0})
  make_directory path = do fs_call (create_directory path); pure tt

  -- The action of `Initialize`.
  pub initialize : Action W (Unit {0})
  unfolding check_sbox make_directory scoped checked_under_lock open_locked
  initialize =
      scoped locks (open_locked locks (parent_path tmp_sbox) r_lock)
        (checked_under_lock locks check_sbox (make_directory tmp_sbox))

  -- Container(name, where); the object Initialize is part of the state.
  pub create_in : String → String → Method Once W Container
  unfolding initialize invoke make_directory
  create_in name containers_path = do
    invoke initialize
    outside (make_directory (join containers_path name))
    pure (record { container_path = join containers_path name; removed = false })

  -- Container(name)
  unfoldable create_container : String → Method Once W Container
  unfolding create_in
  create_container name = create_in name tmp_sbox

  -- enter
  unfoldable pub enter_container : Container → Action W (Unit {0})
  unfolding sex_syscall ensure
  enter_container c = do
    rooted ←
        sex_syscall locks.sys "chroot(getPath().c_str())" (chroot (get_path c))
          (at 51 "enter" container_cpp)
    ensure rooted
    moved ← sex_syscall locks.sys "chdir(\"/\")" (chdir "/") (at 52 "enter" container_cpp)
    ensure moved

  -- remove
  pub remove_container : Method Container W (Unit {0})
  remove_container = do
    c ← this
    assert (not c.removed)
    outside (fs_call (remove_all c.container_path))
    set_this (record c { removed = true })

  -- ~Container
  pub destroy_container : Method Container W (Unit {0})
  unfolding remove_container
  destroy_container = do c ← this; noexcept (when (not c.removed) remove_container)
