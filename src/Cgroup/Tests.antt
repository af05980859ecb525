-- ===== src/Cgroup/Tests.antt =====
-- A cgroup file system that counts the writes, with a cpu.stat.
use sex.Common.{◌++◌, arith}
use sex.Common.Int.{minus_one, ◌==ℤ◌}
use sex.Cgroup.{with_cpu_window_limit}
use sex.Cgroup.Life.{planned_numbers, cpu_write}
use sex.Cgroup.CpuWindow.{cpu_limit_written}
use sex.Cgroup.Making.{ParentFails, DirectoryFails, LimitsFail, Made, create_cgroup_cases}
use text.Mathlib.Text.{◌==◌ as str_eq}
use sex.Common.{
  if◌then◌else◌, inl, inr, ℕ, ◌+◌, String, true, List, [], ◌∷◌, none, some, ◌≡◌, ◌⊎◌, refl,
}
use sex.Common.Int.{pos}
use sex.Runtime.{Action, done, thrown, standard, Sys, Reply, Panics}
use sex.Once.{fresh_once}
use sex.Cgroup.{
  builder, with_memory_limit_max, with_pids_limit, Builder, CgroupCalls, CgroupController,
}
use sex.Cgroup.Control.{to_i64, set_limits, create_cgroup, get_cpu_usage}
use sex.Cgroup.Life.{planned, AllWritten, set_limits_writes}
use sex.Cgroup.{no_limit}
use sex.Cgroup.Stats.{Line, last_value, words_of, get_cpu_usage_cases}

abbrev fine : Reply
fine = record { value = pos 3; errno = 0 }

abbrev pub cgroup_sys : Sys ℕ
cgroup_sys = record {
  format = λ f args. f;
  strerror = λ n. "";
  error_text = λ n. "";
  close = λ fd w. (fine, w);
}

-- The words of cpu.stat are given, and so is stoull.
abbrev pub counting : List String → (String → Action ℕ ℕ) → CgroupCalls ℕ
counting words stoull = record {
  locks = record {
    sys = cgroup_sys;
    open_rdonly = λ path w. (fine, w);
    flock = λ fd op w. (fine, w);
  };
  exists = λ path w. ((true, 0), w);
  create_directory = λ path w. ((true, 0), w);
  remove = λ path w. ((true, 0), w);
  write_file = λ path pieces w. (true, w + 1);
  read_words = λ path w. (words, w);
  read_number = λ path w. ((7, true), w);
  stoull = stoull;
  open_directory = λ path w. (fine, w);
  getpid = λ w. (1, w);
  parent_path = λ path. path;
  join = λ a b. b;
}

abbrev pub no_digits : String → Action ℕ ℕ
no_digits s w = (thrown (standard "stoull"), w)

abbrev limits : Builder
limits = record builder { memory_limit_max = 4096; pids_limit = 10 }

built : with_pids_limit 10 (with_memory_limit_max 4096 builder) ≡ limits
unfolding with_pids_limit with_memory_limit_max
built = refl

abbrev group : CgroupController
group = record { cgroup_path = "g" }

two_writes :
    create_cgroup (counting [] no_digits) "g" limits (fresh_once, 0)
    ≡ (done group, (record { invoked = true }, 2))
unfolding create_cgroup
two_writes = refl

set_limits_writes_example : AllWritten (counting [] no_digits) group (planned limits) 0 2
unfolding set_limits
set_limits_writes_example = set_limits_writes (counting [] no_digits) group limits 0 2 refl

abbrev cpu_stat : List Line
cpu_stat =
    record { key = "usage_usec"; word = "12"; value = 12 }
    ∷ record { key = "user_usec"; word = "max"; value = no_limit }
    ∷ record { key = "system_usec"; word = "5"; value = 5 }
    ∷ []

abbrev two_numbers : String → Action ℕ ℕ
two_numbers s w =
    if str_eq s "12"
    then (done 12, w)
    else if str_eq s "5"
    then (done 5, w)
    else (thrown (standard "stoull"), w)

abbrev with_stat : CgroupCalls ℕ
with_stat = counting (words_of cpu_stat) two_numbers

get_cpu_usage_cases_example :
    ((system user total : ℕ) × (last_value cpu_stat "system_usec" none ≡ some system)
      × (last_value cpu_stat "user_usec" none ≡ some user)
      × (last_value cpu_stat "usage_usec" none ≡ some total)
      × (get_cpu_usage with_stat group 0 ≡ (
        done (record { system = to_i64 system; user = to_i64 user; total = to_i64 total }),
        0,
      )))
    ⊎ ((last_value cpu_stat "system_usec" none ≡ none)
        ⊎ (last_value cpu_stat "user_usec" none ≡ none)
        ⊎ (last_value cpu_stat "usage_usec" none ≡ none))
      × Panics (get_cpu_usage with_stat group 0).0
get_cpu_usage_cases_example =
    get_cpu_usage_cases with_stat group 0 cpu_stat 0 refl
      (inr (refl, λ w. refl), (inl (refl, refl), (inr (refl, λ w. refl), tt)))

-- A limit of 5000 of 10000 microseconds.
cpu_limit_written_example :
    AllWritten
      (counting [] no_digits)
      group
      (planned_numbers limits
        ++ (if pos 5000 ==ℤ minus_one then [] else cpu_write (pos 5000) (pos 10000) ∷ []))
      0
      3
unfolding set_limits with_cpu_window_limit
cpu_limit_written_example =
    cpu_limit_written (counting [] no_digits) group (pos 5000) (pos 10000) limits 0 3 (omega arith)
      (omega arith) refl

create_cgroup_cases_example :
    let k = counting [] no_digits in
    ParentFails k "g" limits fresh_once 0
    ⊎ DirectoryFails k "g" limits fresh_once 0
    ⊎ LimitsFail k "g" limits fresh_once 0
    ⊎ Made k "g" limits fresh_once 0
create_cgroup_cases_example = create_cgroup_cases (counting [] no_digits) "g" limits fresh_once 0
