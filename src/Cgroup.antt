-- ===== src/Cgroup.antt =====
-- sex/cgroup_controller.{hpp,cpp} and sex/util/builder_helper.hpp: CgroupController, a control group
-- with limits, and the Builder of its options.
pub mod Read
pub mod Control
pub mod Life
pub mod Stats
pub mod CpuWindow
pub mod Making
pub mod Program
pub mod Pool
pub mod Tests
use sex.Common.{
  ℕ, String, ◌^◌, ◌-◌, Bool, true, false, not, ◌&&◌, ◌==◌, if◌then◌else◌, List, [], ◌∷◌,
}
use sex.Common.Int.{ℤ}
use sex.Runtime.{
  Action, Method, Syscall, Arg, str, num, int, outside, noexcept, when, pure, ◌>>=◌, ◌>>◌, at, done,
}
use sex.Errors.{sex_assert}
use sex.Result.{sex_syscall, unwrap}
use sex.Fd.{FdHolder, holder}
use sex.Flock.{LockCalls, r_lock, open_locked, scoped, checked_under_lock}
use sex.ExecuteArgs.{to_u64}
use sex.Container.{fs_call}

-- Builder::NoLimit, -1 of 64 bits.
abbrev pub no_limit : ℕ
no_limit = 2 ^ 64 - 1

-- CpuWindowLimit
pub record CpuWindowLimit : Type 0 where
  pub limit_us : ℕ
  pub window_us : ℕ

-- Builder; AddBuilderFieldDefault gives each limit with a getter and a setter.
pub record Builder : Type 0 where
  pub memory_limit_high : ℕ
  pub memory_limit_max : ℕ
  pub pids_limit : ℕ
  pub cpu_window_limit : CpuWindowLimit

abbrev pub builder : Builder
builder = record {
  memory_limit_high = no_limit;
  memory_limit_max = no_limit;
  pids_limit = no_limit;
  cpu_window_limit = record { limit_us = no_limit; window_us = no_limit };
}

-- The setters of Builder.
unfoldable with_memory_limit_high : ℕ → Builder → Builder
with_memory_limit_high new_val b = record b { memory_limit_high = new_val }

pub with_memory_limit_max : ℕ → Builder → Builder
with_memory_limit_max new_val b = record b { memory_limit_max = new_val }

pub with_pids_limit : ℕ → Builder → Builder
with_pids_limit new_val b = record b { pids_limit = new_val }

unfoldable with_cpu_window_limit : ℤ → ℤ → Builder → Builder
with_cpu_window_limit limit window b = record b {
  cpu_window_limit = record { limit_us = to_u64 limit; window_us = to_u64 window };
}

-- CpuUsage, in std::chrono::microseconds, which are signed.
pub record CpuUsage : Type 0 where
  pub system : ℤ
  pub user : ℤ
  pub total : ℤ

-- What the controller calls: those of its lock; std::filesystem; `std::ofstream(path) << a << …`
-- and what `good()` then gives; the words of a file as `std::ifstream >> string` reads them, one
-- number by `>>` with the outcome of `good()`, and std::stoull; open on a directory; and getpid.
pub record CgroupCalls (W : Type 0) : Type 0 where
  pub locks : LockCalls W
  pub exists : String → W → (Bool × ℕ) × W
  pub create_directory : String → W → (Bool × ℕ) × W
  pub remove : String → W → (Bool × ℕ) × W
  pub write_file : String → List Arg → W → Bool × W
  pub read_words : String → W → List String × W
  pub read_number : String → W → (ℕ × Bool) × W
  pub stoull : String → Action W ℕ
  pub open_directory : String → Syscall W
  pub getpid : W → ℕ × W
  pub parent_path : String → String
  pub join : String → String → String

-- CgroupController, by its path.
pub record CgroupController : Type 0 where
  pub cgroup_path : String

-- getCgroupPath
abbrev get_cgroup_path : CgroupController → String
get_cgroup_path c = c.cgroup_path

abbrev cgroups_path : String
cgroups_path = "/sys/fs/cgroup"

abbrev subtree_control : String
subtree_control = "cgroup.subtree_control"

abbrev cgroup_cpp : String
cgroup_cpp = "sex/cgroup_controller.cpp"

-- EssentialControllers
abbrev essential_controllers : List Arg
essential_controllers = str "+memory +pids +cpu" ∷ []

-- The texts of the two assertions of `InitializeParentCgroup`.
abbrev root_assertion : String
root_assertion =
    "(std::ofstream( CgroupController::CgroupsPath / CgroupController::SubtreeControl) << EssentialControllers).good()"

abbrev parent_assertion : String
parent_assertion =
    "(std::ofstream( CgroupController::SboxCgroup / CgroupController::SubtreeControl) << EssentialControllers).good()"

module _ {W : Type 0} (k : CgroupCalls W) where
  open k use {
    locks, exists, create_directory, remove, write_file, read_words, read_number, stoull,
    open_directory, getpid, parent_path, join,
  }

  -- SboxCgroup
  abbrev pub sbox_cgroup : String
  sbox_cgroup = join cgroups_path "sbox"

  -- getControllerPath
  abbrev pub get_controller_path : CgroupController → String → String
  get_controller_path c controller = join (get_cgroup_path c) controller

  -- SEX_ASSERT((std::ofstream(path) << …).good())
  pub assert_file : String → String → List Arg → ℕ → String → Action W (Unit {0})
  unfolding sex_assert
  assert_file text path pieces line function w =
      let (good, w') = write_file path pieces w in
      sex_assert locks.sys text good (at line function cgroup_cpp) w'

  -- The lines of `InitializeParentCgroup` after its last check.
  pub create_parent : Action W (Unit {0})
  unfolding assert_file
  create_parent = do
    assert_file root_assertion (join cgroups_path subtree_control) essential_controllers 55
        "operator()"
    fs_call (create_directory sbox_cgroup)
    assert_file parent_assertion (join sbox_cgroup subtree_control) essential_controllers 59
        "operator()"

  -- The action of `InitializeParentCgroup`.
  pub initialize_parent_cgroup : Action W (Unit {0})
  unfolding create_parent scoped checked_under_lock open_locked
  initialize_parent_cgroup =
      scoped locks (open_locked locks (parent_path sbox_cgroup) r_lock)
        (checked_under_lock locks (fs_call (exists sbox_cgroup)) create_parent)

  -- What a limit is written as.
  abbrev limit_arg : ℕ → Arg
  limit_arg limit = if limit == no_limit then str "max" else num limit

  -- setMemoryLimitMax, setMemoryLimitHigh and setPidsLimit
  pub set_memory_limit_max : CgroupController → ℕ → Action W (Unit {0})
  unfolding assert_file
  set_memory_limit_max c new_val =
      assert_file "out.good()" (get_controller_path c "memory.max") (limit_arg new_val ∷ []) 101
        "setMemoryLimitMax"

  pub set_memory_limit_high : CgroupController → ℕ → Action W (Unit {0})
  unfolding assert_file
  set_memory_limit_high c new_val =
      assert_file "out.good()" (get_controller_path c "memory.high") (limit_arg new_val ∷ []) 111
        "setMemoryLimitHigh"

  pub set_pids_limit : CgroupController → ℕ → Action W (Unit {0})
  unfolding assert_file
  set_pids_limit c new_val =
      assert_file "out.good()" (get_controller_path c "pids.max") (limit_arg new_val ∷ []) 121
        "setPidsLimit"

  -- setCpuWindowLimit
  pub set_cpu_window_limit : CgroupController → ℤ → ℤ → Action W (Unit {0})
  unfolding assert_file
  set_cpu_window_limit c limit window =
      assert_file
        "(std::ofstream(getControllerPath(cpuMax)) << limit.count() << \" \" << window.count()).good()"
        (get_controller_path c "cpu.max") (int limit ∷ str " " ∷ int window ∷ []) 177
        "setCpuWindowLimit"
