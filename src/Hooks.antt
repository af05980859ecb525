-- ===== src/Hooks.antt =====
-- sex/util/execute_hooks.{hpp,cpp}: what runs before and after the clone, and the default hooks,
-- which map the user into a new user namespace.
pub mod Mappings
mod Tests
use sex.Common.{ℕ, String, List, [], ◌∷◌, Bool, ◌-◌, ◌^◌, if◌then◌else◌}
use sex.Common.Int.{ℤ}
use sex.Common.Bits.{test_bit}
use sex.Runtime.{
  Outcome, done, Action, Method, Reply, Syscall, Sys, this, set_this, outside, when, pure, ◌>>=◌,
  ◌>>◌, at, Arg, num, str,
}
use sex.Errors.{sex_assert}
use sex.Result.{sex_syscall, ensure}
use sex.ExecuteArgs.{CloneArgs}

-- IExecuteHooks, implemented by objects of type H. `BeforeClone` may change the arguments.
pub record IExecuteHooks (H W : Type 0) : Type 0 where
  pub before_clone : CloneArgs → Method H W CloneArgs
  pub after_clone_parent : CloneArgs → ℤ → Method H W (Unit {0})
  pub after_clone_child : CloneArgs → Method H W (Unit {0})

-- What the default hooks call: getuid and getgid, prctl(PR_SET_DUMPABLE, 1, 42, 42, 42), and
-- `std::ofstream(path) << a << b …` as a condition, with what it writes.
pub record HookCalls (W : Type 0) : Type 0 where
  pub sys : Sys W
  pub getuid : W → ℕ × W
  pub getgid : W → ℕ × W
  pub set_dumpable : Syscall W
  pub write_file : String → List Arg → W → Bool × W

-- ExecuteHooksDefault. The initialiser -1u is an unsigned int of 32 bits.
pub record ExecuteHooksDefault : Type 0 where
  pub previous_uid : ℕ
  pub previous_gid : ℕ

abbrev pub default_hooks : ExecuteHooksDefault
default_hooks = record { previous_uid = 2 ^ 32 - 1; previous_gid = 2 ^ 32 - 1 }

-- CLONE_NEWUSER is bit 28.
abbrev pub has_new_user : CloneArgs → Bool
has_new_user args = test_bit args.flags 28

abbrev hooks_cpp : String
hooks_cpp = "sex/util/execute_hooks.cpp"

module _ {W : Type 0} (k : HookCalls W) where
  open k use {sys, getuid, getgid, set_dumpable, write_file}

  -- RememberUidGid
  remember_uid_gid : Method ExecuteHooksDefault W (Unit {0})
  remember_uid_gid (h, w) =
      let (uid, w') = getuid w in
      let (gid, w'') = getgid w' in
      (done tt, (record { previous_uid = uid; previous_gid = gid }, w''))

  -- SEX_ASSERT(std::ofstream(path) << …)
  assert_written : String → String → List Arg → ℕ → Action W (Unit {0})
  unfolding sex_assert
  assert_written text path pieces line w =
      let (good, w') = write_file path pieces w in
      sex_assert sys text good (at line "CreateUidGidMappings" hooks_cpp) w'

  -- CreateUidGidMappings
  create_uid_gid_mappings : Method ExecuteHooksDefault W (Unit {0})
  unfolding assert_written sex_syscall ensure
  create_uid_gid_mappings = do
    h ← this
    outside (
        sex_syscall sys "prctl(PR_SET_DUMPABLE, 1, 42, 42, 42)" set_dumpable
          (at 35 "CreateUidGidMappings" hooks_cpp)
        >>= ensure)
    outside (
        assert_written "std::ofstream(\"/proc/self/uid_map\") << \"0 \" << previous_uid_ << \" 1\""
          "/proc/self/uid_map" (str "0 " ∷ num h.previous_uid ∷ str " 1" ∷ []) 37)
    outside (
        assert_written "std::ofstream(\"/proc/self/setgroups\") << \"deny\"" "/proc/self/setgroups"
          (str "deny" ∷ []) 39)
    outside (
        assert_written "std::ofstream(\"/proc/self/gid_map\") << \"0 \" << previous_gid_ << \" 1\""
          "/proc/self/gid_map" (str "0 " ∷ num h.previous_gid ∷ str " 1" ∷ []) 40)

  -- ExecuteHooksDefault::BeforeClone
  pub before_clone : CloneArgs → Method ExecuteHooksDefault W CloneArgs
  unfolding remember_uid_gid
  before_clone args = do when (has_new_user args) remember_uid_gid; pure args

  -- ExecuteHooksDefault::AfterCloneChild
  pub after_clone_child : CloneArgs → Method ExecuteHooksDefault W (Unit {0})
  unfolding create_uid_gid_mappings
  after_clone_child args = when (has_new_user args) create_uid_gid_mappings

  -- ExecuteHooksDefault::AfterCloneParent does nothing.
  pub after_clone_parent : CloneArgs → ℤ → Method ExecuteHooksDefault W (Unit {0})
  after_clone_parent args child_pid = pure tt

  unfoldable pub hooks_default : IExecuteHooks ExecuteHooksDefault W
  unfolding before_clone after_clone_parent after_clone_child
  hooks_default = record {
    before_clone = before_clone;
    after_clone_parent = after_clone_parent;
    after_clone_child = after_clone_child;
  }
