-- ===== src/ExecuteArgs/Tests.antt =====
-- The chain of the tests: `ExecuteArgs{}.NewPidNS().NewUserNS()`, and one that takes a call back.
use sex.Common.{true}
use sex.Common.Int.{pos}
use sex.ExecuteArgs.{entering_cgroup, execute_args}
use sex.ExecuteArgs.Fields.{last_cgroup, last_signal, build_args}
use sex.Common.{◌≡◌, refl, List, [], ◌∷◌, arith}
use sex.Common.Bits.{test_bit}
use sex.ExecuteArgs.{
  Call, new_ns, same_ns, creating_pid_fd, user_ns, pid_ns, build, new_knob, same_knob,
  create_pid_fd,
}
use sex.ExecuteArgs.Flags.{last_effect}

abbrev chain : List Call
chain = new_ns pid_ns ∷ new_ns user_ns ∷ creating_pid_fd ∷ same_ns pid_ns ∷ []

chain_built : (build chain).flags ≡ 0x10001000
unfolding build new_knob same_knob create_pid_fd
chain_built = refl

-- A chain that enters a group, and leaves the signal as it is.
abbrev entering : List Call
entering = entering_cgroup (record { number = pos 5 }) ∷ creating_pid_fd ∷ []

build_args_example :
    (test_bit (build entering).flags 33 ≡ true)
    × (build entering
        ≡ record execute_args { flags = (build entering).flags; cgroup = 5; exit_signal = 17 })
unfolding last_effect last_cgroup last_signal
build_args_example = build_args entering 33 (omega arith)
