-- ===== src/Execute/Tests.antt =====
-- Both sides of a clone: the world is what clone3 returns to this process.
use sex.Container.{Container, ContainerCalls}
use sex.Cgroup.{CgroupController, CgroupCalls}
use sex.Flock.{LockCalls}
use sex.Execute.Sandboxed.{sandboxed, start, Inside, NotInside, execute_sandboxed}
use sex.Common.{false}
use sex.Common.{◌⊎◌, true, [], ◌∷◌}
use sex.Runtime.{Reply, Throws}
use sex.Hooks.{HookCalls, default_hooks, hooks_default}
use sex.ExecuteArgs.Flags.{last_effect}
use sex.ExecuteArgs.{
  create_pid_fd, discard_pid_fd_creation, new_knob, build, creating_pid_fd, discarding_pid_fd,
  new_ns, user_ns,
}
use sex.Execute.Composed.{Mapped, NotMapped, maps_then_runs, built_knob}
use sex.Common.{◌*◌, ◌≡◌, refl, arith}
use sex.Common.Int.{ℤ, pos, minus_one}
use sex.Runtime.{standard, foreign, done, thrown, Action, pure, throw, Sys}
use sex.ExecuteArgs.{CloneArgs, execute_args}
use sex.Fd.{holder}
use sex.Hooks.{IExecuteHooks}
use sex.ExitStatus.{exited_status}
use sex.Process.{ProcessCalls, knob_of_pid, wait}
use sex.Process.Wait.{exits}
use sex.Execute.{ExecuteCalls, execute}
use sex.Execute.Child.{EndsAs, ending_of, waited}

abbrev clone_sys : Sys ℤ
clone_sys = record {
  format = λ f args. f;
  strerror = λ n. "";
  error_text = λ n. "";
  close = λ fd w. (record { value = pos 0; errno = 0 }, w);
}

-- The kernel stores the descriptor 3 where CLONE_PIDFD asks for it.
abbrev cloning : ExecuteCalls ℤ
cloning = record {
  sys = clone_sys;
  pidfd_address = 4096;
  clone3 = λ args pidfd w. ((record { value = w; errno = 11 }, pos 3), w);
  filesystem_text = λ n. "";
  print_caught = λ text w. w;
}

-- Hooks that do nothing.
abbrev quiet : IExecuteHooks (Unit {0}) ℤ
quiet = record {
  before_clone = λ args. pure args;
  after_clone_parent = λ args pid. pure tt;
  after_clone_child = λ args. pure tt;
}

abbrev routine : Action ℤ (Unit {0})
routine = throw foreign

-- The parent's waitpid reports exit code 127.
abbrev reaping : ProcessCalls ℤ
reaping = record {
  sys = clone_sys;
  waitpid = λ pid w. ((record { value = pid; errno = 0 }, 127 * 256), w);
  kill = λ pid signal w. (record { value = pos 0; errno = 0 }, w);
}

waited_example :
    wait reaping (knob_of_pid (pos 77)) (pos 77) ≡ (done (exited_status (pos 127)), pos 77)
unfolding execute
waited_example =
    waited cloning quiet routine execute_args tt (pos 0) execute_args tt tt (pos 0) (pos 0)
      (thrown foreign) (pos 0) reaping (knob_of_pid (pos 77)) (pos 77) (exits 127) refl refl refl
      refl refl refl refl

-- The default hooks over a /proc whose writes succeed and are not seen in the world.
abbrev proc : HookCalls ℤ
proc = record {
  sys = clone_sys;
  getuid = λ w. (1000, w);
  getgid = λ w. (100, w);
  set_dumpable = λ w. (record { value = pos 0; errno = 0 }, w);
  write_file = λ path pieces w. (true, w);
}

abbrev new_user : CloneArgs
new_user = record execute_args { flags = 268435456 }

maps_then_runs_example :
    let run = execute cloning (hooks_default proc) routine new_user (default_hooks, pos 0) in
    Mapped cloning proc routine new_user default_hooks (pos 0)
      × EndsAs run.0 (ending_of (thrown foreign))
    ⊎ NotMapped cloning proc routine new_user default_hooks (pos 0) × Throws run.0
maps_then_runs_example =
    maps_then_runs cloning proc routine new_user default_hooks (pos 0) refl refl

built_knob_example :
    execute cloning
      (hooks_default proc)
      routine
      (build (discarding_pid_fd ∷ new_ns user_ns ∷ creating_pid_fd ∷ []))
      (default_hooks, pos 77)
    ≡ (
      done (record { pid = pos 77; pid_fd = holder (pos 3) }),
      (record { previous_uid = 1000; previous_gid = 100 }, pos 77),
    )
unfolding hooks_default build last_effect create_pid_fd discard_pid_fd_creation new_knob
built_knob_example =
    built_knob cloning proc routine (discarding_pid_fd ∷ new_ns user_ns ∷ creating_pid_fd ∷ [])
      default_hooks (pos 77) (λ e. ground arith) (λ e. ground arith)

-- A system whose calls all succeed, but for chroot, whose reply is given; the world stays.
abbrev fine : Reply
fine = record { value = pos 0; errno = 0 }

abbrev no_locks : LockCalls ℤ
no_locks = record {
  sys = clone_sys;
  open_rdonly = λ path w. (fine, w);
  flock = λ fd op w. (fine, w);
}

abbrev boxes : Reply → ContainerCalls ℤ
boxes reply = record {
  locks = no_locks;
  exists = λ path w. ((true, 0), w);
  create_directory = λ path w. ((true, 0), w);
  remove_all = λ path w. ((1, 0), w);
  chroot = λ path w. (reply, w);
  chdir = λ path w. (fine, w);
  tmp_sbox = "/tmp/sbox";
  parent_path = λ path. "/tmp";
  join = λ a b. b;
}

abbrev groups : CgroupCalls ℤ
groups = record {
  locks = no_locks;
  exists = λ path w. ((true, 0), w);
  create_directory = λ path w. ((true, 0), w);
  remove = λ path w. ((true, 0), w);
  write_file = λ path pieces w. (true, w);
  read_words = λ path w. ([], w);
  read_number = λ path w. ((7, true), w);
  stoull = λ s w. (thrown (standard "stoull"), w);
  open_directory = λ path w. (fine, w);
  getpid = λ w. (1, w);
  parent_path = λ path. path;
  join = λ a b. b;
}

abbrev group : CgroupController
group = record { cgroup_path = "g" }

abbrev box : Container
box = record { container_path = "/tmp/sbox/b"; removed = false }

-- chroot fails.
abbrev unrooted : ContainerCalls ℤ
unrooted = boxes (record { value = minus_one; errno = 1 })

abbrev work : Action ℤ (Unit {0})
work = pure tt

execute_sandboxed_example :
    let f = sandboxed groups unrooted group box work in
    let there = start cloning proc groups unrooted group box work new_user default_hooks (pos 0) in
    let run = execute cloning (hooks_default proc) f new_user (default_hooks, pos 0) in
    Mapped cloning proc f new_user default_hooks (pos 0)
      × Inside groups unrooted group box work there
      × EndsAs run.0 (ending_of (done tt))
    ⊎ Mapped cloning proc f new_user default_hooks (pos 0)
      × NotInside groups unrooted group box work there
      × EndsAs run.0 (exits 127)
    ⊎ NotMapped cloning proc f new_user default_hooks (pos 0) × Throws run.0
execute_sandboxed_example =
    execute_sandboxed cloning proc groups unrooted group box work new_user default_hooks (pos 0)
      refl refl
