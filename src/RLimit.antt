-- ===== src/RLimit.antt =====
-- sex/util/rlimit.hpp: limits of a process.
pub mod Laws
mod Tests
use sex.Common.{ℕ, String}
use sex.Runtime.{Outcome, done, Action, Reply, Syscall, Sys, pure, ◌>>=◌, ◌>>◌, at}
use sex.Result.{Result, sex_syscall, syscall_result, discard_value, then_value}

-- ResourceType
pub data ResourceType : Type 0 where
  file_size file_count cpu_time core_dump_size address_space data_segment_size stack_size :
      ResourceType

-- `int(tp)`, by the numbers of Linux.
abbrev pub resource_number : ResourceType → ℕ
resource_number cpu_time = 0
resource_number file_size = 1
resource_number data_segment_size = 2
resource_number stack_size = 3
resource_number core_dump_size = 4
resource_number file_count = 7
resource_number address_space = 9

-- ResourceLimit, and rlimit64 with the same two.
pub record ResourceLimit : Type 0 where
  pub soft : ℕ
  pub hard : ℕ

-- The system calls; getrlimit64 with the limits that it fills in, before and after.
pub record LimitCalls (W : Type 0) : Type 0 where
  pub sys : Sys W
  pub setrlimit64 : ℕ → ResourceLimit → Syscall W
  pub getrlimit64 : ℕ → ResourceLimit → W → (Reply × ResourceLimit) × W

abbrev rlimit_hpp : String
rlimit_hpp = "sex/util/rlimit.hpp"

module _ {W : Type 0} (k : LimitCalls W) where
  open k use {sys, setrlimit64, getrlimit64}

  -- SetRLimit(tp, softLimit, hardLimit)
  pub set_rlimit : ResourceType → ℕ → ℕ → Action W (Result (Unit {0}))
  unfolding sex_syscall discard_value
  set_rlimit tp soft_limit hard_limit = do
    r ←
        sex_syscall sys "setrlimit64(int(tp), &lim)"
          (setrlimit64 (resource_number tp) (record { soft = soft_limit; hard = hard_limit }))
          (at 22 "SetRLimit" rlimit_hpp)
    discard_value sys r

  -- SetRLimit(tp, limit)
  unfoldable set_both_rlimits : ResourceType → ℕ → Action W (Result (Unit {0}))
  unfolding set_rlimit
  set_both_rlimits tp limit = set_rlimit tp limit limit

  -- GetRLimit
  pub get_rlimit : ResourceType → Action W (Result ResourceLimit)
  unfolding syscall_result then_value
  get_rlimit tp w =
      let ((reply, lim), w') = getrlimit64 (resource_number tp) (record { soft = 0; hard = 0 }) w in
      then_value sys (λ _. pure lim)
        (syscall_result sys "getrlimit64(int(tp), &lim)" reply (at 42 "GetRLimit" rlimit_hpp)) w'
