-- ===== src/Hooks/Tests.antt =====
-- A user 1000 of group 100, and a /proc whose files take one write each: the world counts them.
use sex.Common.{ℕ, ◌+◌, ◌^◌, ◌≡◌, refl, true}
use sex.Common.Int.{pos}
use sex.Runtime.{Sys}
use sex.ExecuteArgs.{CloneArgs, execute_args}
use sex.Hooks.{HookCalls, default_hooks, before_clone, after_clone_child}

abbrev count_sys : Sys ℕ
count_sys = record {
  format = λ f args. f;
  strerror = λ n. "";
  error_text = λ n. "";
  close = λ fd w. (record { value = pos 0; errno = 0 }, w);
}

abbrev pub proc : HookCalls ℕ
proc = record {
  sys = count_sys;
  getuid = λ w. (1000, w);
  getgid = λ w. (100, w);
  set_dumpable = λ w. (record { value = pos 0; errno = 0 }, w);
  write_file = λ path pieces w. (true, w + 1);
}

abbrev new_user : CloneArgs
new_user = record execute_args { flags = 2 ^ 28 }

three_writes :
    (after_clone_child proc new_user ((before_clone proc new_user (default_hooks, 0)).1.0, 0)).1.1
    ≡ 3
unfolding before_clone after_clone_child
three_writes = refl
