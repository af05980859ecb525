-- ===== src/ExecuteArgs.antt =====
-- sex/util/execute_args.{hpp,cpp}: the arguments of clone3 and the calls that build them.
pub mod Fields
pub mod Flags
mod Tests
use sex.Common.{ℕ, ◌^◌, Bool, bit_and, bit_or, List, [], ◌∷◌}
use sex.Common.Int.{ℤ, pos, negsuc}
use sex.Common.Bits.{bit_not}
use sex.Fd.{FileDescriptor, get_int}

-- `clone_args`: 64-bit words.
pub record CloneArgs : Type 0 where
  pub flags : ℕ
  pub pidfd : ℕ
  pub child_tid : ℕ
  pub parent_tid : ℕ
  pub exit_signal : ℕ
  pub stack : ℕ
  pub stack_size : ℕ
  pub tls : ℕ
  pub set_tid : ℕ
  pub set_tid_size : ℕ
  pub cgroup : ℕ

-- An int stored in an unsigned word of 64 bits.
abbrev pub to_u64 : ℤ → ℕ
to_u64 (pos n) = n
to_u64 (negsuc n) = bit_not 64 n

abbrev sigchld : ℕ
sigchld = 17

-- ExecuteArgs()
abbrev pub execute_args : CloneArgs
execute_args = record {
  flags = 0;
  pidfd = 0;
  child_tid = 0;
  parent_tid = 0;
  exit_signal = sigchld;
  stack = 0;
  stack_size = 0;
  tls = 0;
  set_tid = 0;
  set_tid_size = 0;
  cgroup = 0;
}

-- The names that DEFINE_EXECUTE_FLAG is used with.
pub data KnobName : Type 0 where
  user_ns mount_ns network_ns ipc_ns cgroup_ns pid_ns uts_ns time_ns : KnobName

-- The number of the bit that each flag of linux/sched.h is.
abbrev pub knob_bit : KnobName → ℕ
knob_bit user_ns = 28
knob_bit mount_ns = 17
knob_bit network_ns = 30
knob_bit ipc_ns = 27
knob_bit cgroup_ns = 25
knob_bit pid_ns = 29
knob_bit uts_ns = 26
knob_bit time_ns = 7

abbrev pub files_bit : ℕ
files_bit = 10

abbrev pub pidfd_bit : ℕ
pidfd_bit = 12

abbrev pub into_cgroup_bit : ℕ
into_cgroup_bit = 33

-- The flag that is one bit.
abbrev pub flag : ℕ → ℕ
flag bit = 2 ^ bit

-- SetFlag
pub set_flag : ℕ → CloneArgs → CloneArgs
set_flag f args = record args { flags = bit_or args.flags f }

-- UnsetFlag, on a flags word of 64 bits.
pub unset_flag : ℕ → CloneArgs → CloneArgs
unset_flag f args = record args { flags = bit_and args.flags (bit_not 64 f) }

-- New##KnobName and Same##KnobName
unfoldable pub new_knob : KnobName → CloneArgs → CloneArgs
unfolding set_flag
new_knob name args = set_flag (flag (knob_bit name)) args

pub same_knob : KnobName → CloneArgs → CloneArgs
unfolding unset_flag
same_knob name args = unset_flag (flag (knob_bit name)) args

pub same_files : CloneArgs → CloneArgs
unfolding set_flag
same_files args = set_flag (flag files_bit) args

pub new_files : CloneArgs → CloneArgs
unfolding unset_flag
new_files args = unset_flag (flag files_bit) args

pub into_cgroup : FileDescriptor → CloneArgs → CloneArgs
unfolding set_flag
into_cgroup cfd args =
    set_flag (flag into_cgroup_bit) (record args { cgroup = to_u64 (get_int cfd) })

pub discard_into_cgroup : CloneArgs → CloneArgs
unfolding unset_flag
discard_into_cgroup args =
    unset_flag (flag into_cgroup_bit) (record args { cgroup = to_u64 (negsuc 0) })

unfoldable pub create_pid_fd : CloneArgs → CloneArgs
unfolding set_flag
create_pid_fd args = set_flag (flag pidfd_bit) args

unfoldable pub discard_pid_fd_creation : CloneArgs → CloneArgs
unfolding unset_flag
discard_pid_fd_creation args = unset_flag (flag pidfd_bit) args

pub set_child_exit_signal : ℤ → CloneArgs → CloneArgs
set_child_exit_signal signal args = record args { exit_signal = to_u64 signal }

-- The calls of the builder, for a program that makes some of them in a row.
pub data Call : Type 0 where
  new_ns same_ns : KnobName → Call
  sharing_files copying_files : Call
  entering_cgroup : FileDescriptor → Call
  staying_in_cgroup : Call
  creating_pid_fd discarding_pid_fd : Call
  signalling : ℤ → Call

abbrev pub apply : Call → CloneArgs → CloneArgs
apply (new_ns name) args = new_knob name args
apply (same_ns name) args = same_knob name args
apply sharing_files args = same_files args
apply copying_files args = new_files args
apply (entering_cgroup cfd) args = into_cgroup cfd args
apply staying_in_cgroup args = discard_into_cgroup args
apply creating_pid_fd args = create_pid_fd args
apply discarding_pid_fd args = discard_pid_fd_creation args
apply (signalling s) args = set_child_exit_signal s args

-- ExecuteArgs{}.A().B() is `build (A ∷ B ∷ [])`.
pub build_from : CloneArgs → List Call → CloneArgs
build_from args [] = args
build_from args (c ∷ cs) = build_from (apply c args) cs

unfoldable pub build : List Call → CloneArgs
unfolding build_from
build cs = build_from execute_args cs
