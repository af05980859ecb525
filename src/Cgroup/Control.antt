-- ===== src/Cgroup/Control.antt =====
-- The constructor of CgroupController and its other members (sex/cgroup_controller.cpp).
use sex.Common.{ℕ, String, ◌^◌, ◌-◌, Bool, not, ltb, ◌&&◌, ◌==◌, if◌then◌else◌, [], ◌∷◌}
use sex.Common.Int.{ℤ, pos, negsuc}
use sex.Runtime.{Action, Method, str, int, outside, noexcept, perform, when, pure, ◌>>=◌, ◌>>◌, at}
use sex.Errors.{sex_assert}
use sex.Result.{sex_syscall, unwrap}
use sex.Fd.{FdHolder, holder}
use sex.Once.{Once, invoke}
use sex.Container.{fs_call}
use sex.Cgroup.{
  Builder, no_limit, CgroupCalls, CgroupController, CpuUsage, get_cgroup_path, get_controller_path,
  assert_file, sbox_cgroup, initialize_parent_cgroup, set_memory_limit_max, set_memory_limit_high,
  set_pids_limit, set_cpu_window_limit,
}
use sex.Cgroup.Read.{contains, value_at, read_flat_keyed_file}

-- A uint64_t as a count of microseconds, which is signed.
abbrev pub to_i64 : ℕ → ℤ
to_i64 n = if ltb n (2 ^ 63) then pos n else negsuc (2 ^ 64 - 1 - n)

abbrev pub has_limit : ℕ → Bool
has_limit n = not (n == no_limit)

module _ {W : Type 0} (k : CgroupCalls W) where
  open k use {
    locks, create_directory, remove, read_words, read_number, stoull, open_directory, getpid, join,
  }

  -- The limits that the constructor sets.
  unfoldable pub set_limits : CgroupController → Builder → Action W (Unit {0})
  unfolding set_memory_limit_max set_memory_limit_high set_pids_limit set_cpu_window_limit
  set_limits c options = do
    when (has_limit options.memory_limit_max) (set_memory_limit_max k c options.memory_limit_max)
    when (has_limit options.memory_limit_high) (set_memory_limit_high k c options.memory_limit_high)
    when (has_limit options.pids_limit) (set_pids_limit k c options.pids_limit)
    when (has_limit options.cpu_window_limit.limit_us) (
        set_cpu_window_limit k c (to_i64 options.cpu_window_limit.limit_us)
          (to_i64 options.cpu_window_limit.window_us))

  -- CgroupController(cgroupName, options); the object InitializeParentCgroup is part of the state.
  -- An object whose constructor throws is not destroyed.
  unfoldable pub create_cgroup : String → Builder → Method Once W CgroupController
  unfolding initialize_parent_cgroup invoke set_limits
  create_cgroup cgroup_name options = do
    let c : CgroupController = record { cgroup_path = join (sbox_cgroup k) cgroup_name }
    invoke (initialize_parent_cgroup k)
    outside (fs_call (create_directory c.cgroup_path))
    outside (set_limits c options)
    pure c

  -- getCurrentMemory
  unfoldable get_current_memory : CgroupController → Action W ℕ
  unfolding sex_assert
  get_current_memory c = do
    ret ← perform (read_number (get_controller_path k c "memory.current"))
    sex_assert locks.sys "inf.good()" ret.1 (at 128 "getCurrentMemory" "sex/cgroup_controller.cpp")
    pure ret.0

  -- getCpuUsage
  unfoldable pub get_cpu_usage : CgroupController → Action W CpuUsage
  unfolding read_flat_keyed_file contains value_at sex_assert
  get_cpu_usage c = do
    words ← perform (read_words (get_controller_path k c "cpu.stat"))
    entries ← read_flat_keyed_file stoull words
    sex_assert locks.sys
        "entries.contains(systemUsage) && entries.contains(userUsage) && entries.contains(totalUsage)"
        (contains entries "system_usec"
          && contains entries "user_usec"
          && contains entries "usage_usec")
        (at 139 "getCpuUsage" "sex/cgroup_controller.cpp")
    system ← value_at entries "system_usec"
    user ← value_at entries "user_usec"
    total ← value_at entries "usage_usec"
    pure (record { system = to_i64 system; user = to_i64 user; total = to_i64 total })

  -- killAll
  unfoldable kill_all : CgroupController → Action W (Unit {0})
  unfolding assert_file
  kill_all c =
      assert_file k "(std::ofstream(getControllerPath(cgroupKill)) << \"1\").good()"
        (get_controller_path k c "cgroup.kill") (str "1" ∷ []) 153 "killAll"

  -- getCgroupFd
  unfoldable get_cgroup_fd : CgroupController → Action W FdHolder
  unfolding sex_syscall unwrap
  get_cgroup_fd c = do
    r ←
        sex_syscall locks.sys "open(getCgroupPath().c_str(), O_PATH | O_RDONLY | O_CLOEXEC)"
          (open_directory (get_cgroup_path c)) (at 157 "getCgroupFd" "sex/cgroup_controller.cpp")
    fd ← unwrap r
    pure (holder fd)

  -- addProcess
  add_process : CgroupController → ℤ → Action W (Unit {0})
  unfolding assert_file
  add_process c pid =
      assert_file k "(std::ofstream(getControllerPath(cgroupProcs)) << pid).good()"
        (get_controller_path k c "cgroup.procs") (int pid ∷ []) 161 "addProcess"

  -- enter
  unfoldable pub enter_cgroup : CgroupController → Action W (Unit {0})
  unfolding add_process
  enter_cgroup c = do pid ← perform getpid; add_process c (pos pid)

  -- ~CgroupController
  unfoldable destroy_cgroup : CgroupController → Action W (Unit {0})
  destroy_cgroup c = noexcept (do fs_call (remove c.cgroup_path); pure tt)
