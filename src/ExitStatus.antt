-- ===== src/ExitStatus.antt =====
-- sex/util/exit_status.{hpp,cpp}: how a process ended.
pub mod Laws
mod Tests
use sex.Common.{ℕ, String, Bool, true, false, ◌&&◌}
use sex.Common.Int.{ℤ, pos, ◌==ℤ◌}
use sex.Runtime.{Action, pure, ◌>>=◌, ◌>>◌, Sys, at}
use sex.Errors.{sex_assert}

-- ExitStatus::Type
pub data StatusType : Type 0 where
  exited_type signaled_type : StatusType

-- ExitStatus
pub record ExitStatus : Type 0 where
  pub type : StatusType
  pub value : ℤ

-- ExitStatus(), by its members' initialisers.
abbrev default_status : ExitStatus
default_status = record { type = exited_type; value = pos 0 }

-- ExitStatus(Type, int) and getType
abbrev exit_status : StatusType → ℤ → ExitStatus
exit_status type value = record { type = type; value = value }

abbrev get_type : ExitStatus → StatusType
get_type s = s.type

-- ExitStatus::Exited and ExitStatus::Signaled
abbrev pub exited_status : ℤ → ExitStatus
exited_status code = exit_status exited_type code

abbrev pub signaled_status : ℤ → ExitStatus
signaled_status signal = exit_status signaled_type signal

same_type : StatusType → StatusType → Bool
same_type exited_type exited_type = true
same_type signaled_type signaled_type = true
same_type _ _ = false

pub is_exited : ExitStatus → Bool
unfolding same_type
is_exited s = same_type (get_type s) exited_type

pub is_signaled : ExitStatus → Bool
unfolding same_type
is_signaled s = same_type (get_type s) signaled_type

-- The defaulted operator==, member by member.
unfoldable equal : ExitStatus → ExitStatus → Bool
unfolding same_type
equal s t = same_type s.type t.type && (s.value ==ℤ t.value)

module _ {W : Type 0} (sys : Sys W) where
  pub get_exit_code : {S : Type 0} → ExitStatus → Action S ℤ
  unfolding is_exited sex_assert
  get_exit_code s = do
    sex_assert sys "isExited()" (is_exited s) (at 16 "getExitCode" "sex/util/exit_status.cpp")
    pure s.value

  pub get_signal : {S : Type 0} → ExitStatus → Action S ℤ
  unfolding is_signaled sex_assert
  get_signal s = do
    sex_assert sys "isSignaled()" (is_signaled s) (at 21 "getSignal" "sex/util/exit_status.cpp")
    pure s.value
