-- ===== src/ExecuteArgs/Fields.antt =====
-- What a chain of builder calls makes of all the arguments of clone3 (sex/util/execute_args.cpp).
use sex.Common.{ℕ, ◌<◌, false, List, [], ◌∷◌, ◌≡◌, refl, ap, ◌∙◌}
use sex.Common.Int.{negsuc}
use sex.Common.Bits.{test_bit}
use sex.Fd.{get_int}
use sex.ExecuteArgs.{
  CloneArgs, to_u64, sigchld, new_knob, same_knob, same_files, new_files, into_cgroup,
  discard_into_cgroup, create_pid_fd, discard_pid_fd_creation, set_child_exit_signal, execute_args,
  Call, new_ns, same_ns, sharing_files, copying_files, entering_cgroup, staying_in_cgroup,
  creating_pid_fd, discarding_pid_fd, signalling, apply, build_from, build,
}
use sex.ExecuteArgs.Flags.{last_effect, build_bit}

-- The word of the cgroup after a call, and that of the signal, from the words before.
abbrev after_cgroup : Call → ℕ → ℕ
after_cgroup (entering_cgroup cfd) n = to_u64 (get_int cfd)
after_cgroup staying_in_cgroup n = to_u64 (negsuc 0)
after_cgroup _ n = n

abbrev after_signal : Call → ℕ → ℕ
after_signal (signalling s) n = to_u64 s
after_signal _ n = n

-- The last call about each decides.
unfoldable pub last_cgroup : List Call → ℕ → ℕ
last_cgroup [] n = n
last_cgroup (c ∷ cs) n = last_cgroup cs (after_cgroup c n)

unfoldable pub last_signal : List Call → ℕ → ℕ
last_signal [] n = n
last_signal (c ∷ cs) n = last_signal cs (after_signal c n)

-- The arguments with other flags, cgroup and signal.
abbrev with_words : CloneArgs → ℕ → ℕ → ℕ → CloneArgs
with_words args flags cgroup signal = record args {
  flags = flags;
  cgroup = cgroup;
  exit_signal = signal;
}

apply_words :
    (c : Call) (args : CloneArgs)
    → apply c args
      ≡ with_words args
          (apply c args).flags
          (after_cgroup c args.cgroup)
          (after_signal c args.exit_signal)
unfolding new_knob same_knob same_files new_files into_cgroup discard_into_cgroup create_pid_fd
    discard_pid_fd_creation set_child_exit_signal
apply_words (new_ns name) args = refl
apply_words (same_ns name) args = refl
apply_words sharing_files args = refl
apply_words copying_files args = refl
apply_words (entering_cgroup cfd) args = refl
apply_words staying_in_cgroup args = refl
apply_words creating_pid_fd args = refl
apply_words discarding_pid_fd args = refl
apply_words (signalling s) args = refl

build_from_words :
    (cs : List Call) (args : CloneArgs)
    → build_from args cs
      ≡ with_words args
          (build_from args cs).flags
          (last_cgroup cs args.cgroup)
          (last_signal cs args.exit_signal)
unfolding build_from last_cgroup last_signal
build_from_words [] args = refl
build_from_words (c ∷ cs) args =
    build_from_words cs (apply c args)
    ∙ ap
        (λ (a : CloneArgs).
          with_words a (build_from (apply c args) cs).flags (last_cgroup cs a.cgroup)
            (last_signal cs a.exit_signal))
        (apply_words c args)

-- Any chain of builder calls on `ExecuteArgs{}` gives arguments that are wholly known. A bit of the
-- flags word is set exactly if the last call about it set it, and no call touches the bit of
-- another. The word of the cgroup is the descriptor of the last IntoCgroup, or -1 if a later
-- DiscardIntoCgroup took it back, and 0 if there is neither; the exit signal is that of the last
-- SetChildExitSignal, or else SIGCHLD; and every other field is 0.
pub build_args :
    (cs : List Call) (j : ℕ)
    → j < 64
    → (test_bit (build cs).flags j ≡ last_effect cs j false)
      × (build cs ≡ record execute_args {
        flags = (build cs).flags;
        cgroup = last_cgroup cs 0;
        exit_signal = last_signal cs sigchld;
      })
unfolding build
build_args cs j h = (build_bit cs j h, build_from_words cs execute_args)
