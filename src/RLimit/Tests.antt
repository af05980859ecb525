-- ===== src/RLimit/Tests.antt =====
-- A process whose limits are the world.
use sex.Common.{ℕ, ◌==◌, if◌then◌else◌, ◌≡◌, ◌≢◌, ◌⊎◌, refl, arith}
use sex.Common.Int.{pos}
use sex.Runtime.{done, Sys, Reply}
use sex.Result.{ok}
use sex.RLimit.{ResourceLimit, LimitCalls, file_size, cpu_time, set_rlimit, get_rlimit}
use sex.RLimit.Laws.{Limits, set_rlimit-get_rlimit}

abbrev Table : Type 0
Table = ℕ → ResourceLimit

abbrev limit_sys : Sys Table
limit_sys = record {
  format = λ f args. f;
  strerror = λ n. "";
  error_text = λ n. "";
  close = λ fd w. (record { value = pos 0; errno = 0 }, w);
}

abbrev fine : Reply
fine = record { value = pos 0; errno = 0 }

abbrev process : LimitCalls Table
process = record {
  sys = limit_sys;
  setrlimit64 = λ n l w. (fine, λ m. if n == m then l else w m);
  getrlimit64 = λ n l w. ((fine, w n), w);
}

abbrev process_limits : Limits process
process_limits = record {
  limits = λ w n. w n;
  set_sets = λ w n m l h. refl;
  get_reports = λ w t l. ((λ e. ground arith), refl, refl);
}

abbrev unlimited : Table
unlimited n = record { soft = 1000; hard = 1000 }

abbrev with_file_size : Table
with_file_size m = if 1 == m then record { soft = 10; hard = 20 } else unlimited m

set_rlimit-get_rlimit_example :
    (set_rlimit process file_size 10 20 unlimited ≡ (done (ok tt), with_file_size))
    × ((file_size ≡ cpu_time)
          × (get_rlimit process cpu_time with_file_size
              ≡ (done (ok (record { soft = 10; hard = 20 })), with_file_size))
        ⊎ (file_size ≢ cpu_time)
          × (get_rlimit process cpu_time with_file_size
              ≡ (done (ok (unlimited 0)), with_file_size)))
set_rlimit-get_rlimit_example =
    set_rlimit-get_rlimit process process_limits unlimited file_size cpu_time 10 20
      (λ e. ground arith)
