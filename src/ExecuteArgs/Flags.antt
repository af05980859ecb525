-- ===== src/ExecuteArgs/Flags.antt =====
-- What a chain of builder calls sets in the flags of clone3: for each feature the last call about
-- it decides, and no other bit is ever set.
use sex.Common.{
  ℕ, ◌^◌, ◌<◌, Bool, true, false, not, ◌&&◌, ◌||◌, ◌≡◌, refl, ap, ◌∙◌, List, [], ◌∷◌, Option, none,
  some, arith, ◌==◌, if◌then◌else◌,
}
use sex.Common.Bits.{test_bit, test_bit-bit_or, test_bit-clear, test_bit-pow, test_bit-zero}
use sex.Common.Int.{negsuc}
use sex.Fd.{get_int}
use sex.ExecuteArgs.{
  CloneArgs, to_u64, KnobName, user_ns, mount_ns, network_ns, ipc_ns, cgroup_ns, pid_ns, uts_ns,
  time_ns, knob_bit, files_bit, pidfd_bit, into_cgroup_bit, flag, set_flag, unset_flag, new_knob,
  same_knob, same_files, new_files, into_cgroup, discard_into_cgroup, create_pid_fd,
  discard_pid_fd_creation, set_child_exit_signal, execute_args, Call, new_ns, same_ns,
  sharing_files, copying_files, entering_cgroup, staying_in_cgroup, creating_pid_fd,
  discarding_pid_fd, signalling, apply, build_from, build,
}

-- The bit that a call is about and what it makes of it.
abbrev effect : Call → Option (ℕ × Bool)
effect (new_ns name) = some (knob_bit name, true)
effect (same_ns name) = some (knob_bit name, false)
effect sharing_files = some (files_bit, true)
effect copying_files = some (files_bit, false)
effect (entering_cgroup cfd) = some (into_cgroup_bit, true)
effect staying_in_cgroup = some (into_cgroup_bit, false)
effect creating_pid_fd = some (pidfd_bit, true)
effect discarding_pid_fd = some (pidfd_bit, false)
effect (signalling s) = none

-- The value of a bit after a call, from its value before.
abbrev after_effect : Option (ℕ × Bool) → ℕ → Bool → Bool
after_effect none j b = b
after_effect (some (bit, value)) j b = if bit == j then value else b

-- The last call about a bit decides; a bit that no call is about keeps its first value.
unfoldable pub last_effect : List Call → ℕ → Bool → Bool
last_effect [] j b = b
last_effect (c ∷ cs) j b = last_effect cs j (after_effect (effect c) j b)

or_if : (a b : Bool) → (a || b) ≡ (if b then true else a)
or_if true true = refl
or_if true false = refl
or_if false true = refl
or_if false false = refl

and_not_if : (a b : Bool) → (a && not b) ≡ (if b then false else a)
and_not_if true true = refl
and_not_if true false = refl
and_not_if false true = refl
and_not_if false false = refl

set_flag_bit :
    (bit : ℕ) (args : CloneArgs) (j : ℕ)
    → test_bit (set_flag (flag bit) args).flags j
      ≡ (if bit == j then true else test_bit args.flags j)
unfolding set_flag
set_flag_bit bit args j =
    rw (test_bit-bit_or args.flags (2 ^ bit) j, test_bit-pow bit j)
      (or_if (test_bit args.flags j) (bit == j))

unset_flag_bit :
    (bit : ℕ) (args : CloneArgs) (j : ℕ)
    → flag bit < 2 ^ 64
    → j < 64
    → test_bit (unset_flag (flag bit) args).flags j
      ≡ (if bit == j then false else test_bit args.flags j)
unfolding unset_flag
unset_flag_bit bit args j hb hj =
    rw (test_bit-clear 64 args.flags (2 ^ bit) j hb hj, test_bit-pow bit j)
      (and_not_if (test_bit args.flags j) (bit == j))

knob-lt : (name : KnobName) → flag (knob_bit name) < 2 ^ 64
knob-lt user_ns = omega arith
knob-lt mount_ns = omega arith
knob-lt network_ns = omega arith
knob-lt ipc_ns = omega arith
knob-lt cgroup_ns = omega arith
knob-lt pid_ns = omega arith
knob-lt uts_ns = omega arith
knob-lt time_ns = omega arith

apply_bit :
    (c : Call) (args : CloneArgs) (j : ℕ)
    → j < 64
    → test_bit (apply c args).flags j ≡ after_effect (effect c) j (test_bit args.flags j)
unfolding new_knob same_knob same_files new_files into_cgroup discard_into_cgroup create_pid_fd
    discard_pid_fd_creation set_child_exit_signal
apply_bit (new_ns name) args j h = set_flag_bit (knob_bit name) args j
apply_bit (same_ns name) args j h = unset_flag_bit (knob_bit name) args j (knob-lt name) h
apply_bit sharing_files args j h = set_flag_bit files_bit args j
apply_bit copying_files args j h = unset_flag_bit files_bit args j (omega arith) h
apply_bit (entering_cgroup cfd) args j h =
    set_flag_bit into_cgroup_bit (record args { cgroup = to_u64 (get_int cfd) }) j
apply_bit staying_in_cgroup args j h =
    unset_flag_bit into_cgroup_bit (record args { cgroup = to_u64 (negsuc 0) }) j (omega arith) h
apply_bit creating_pid_fd args j h = set_flag_bit pidfd_bit args j
apply_bit discarding_pid_fd args j h = unset_flag_bit pidfd_bit args j (omega arith) h
apply_bit (signalling s) args j h = refl

build_from_bit :
    (cs : List Call) (args : CloneArgs) (j : ℕ)
    → j < 64
    → test_bit (build_from args cs).flags j ≡ last_effect cs j (test_bit args.flags j)
unfolding build_from last_effect
build_from_bit [] args j h = refl
build_from_bit (c ∷ cs) args j h =
    build_from_bit cs (apply c args) j h ∙ ap (last_effect cs j) (apply_bit c args j h)

-- After any chain of builder calls on `ExecuteArgs{}`, a bit of the flags word is set exactly if
-- the last call about it set it: New… sets the bit of its namespace and Same… clears it, `SameFiles`
-- sets CLONE_FILES and `NewFiles` clears it, and so for the cgroup and the pidfd; a bit that no
-- call is about is 0, and no call touches the bit of another.
pub build_bit :
    (cs : List Call) (j : ℕ) → j < 64 → test_bit (build cs).flags j ≡ last_effect cs j false
unfolding build
build_bit cs j h = build_from_bit cs execute_args j h ∙ ap (last_effect cs j) (test_bit-zero j)
