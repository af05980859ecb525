-- ===== src/Execute/Composed.antt =====
-- `Execute` with its default hooks, and with arguments that a chain of builder calls made.
use sex.Common.{
  Bool, List, false, inl, inr, sym, subst, ap, true, ◌≡◌, ◌≢◌, ◌⊎◌, arith, refl, if◌then◌else◌,
}
use sex.Common.Int.{ℤ, pos, minus_one}
use sex.Runtime.{Outcome, terminated, exited, done, thrown, Exception, Throws, Action, Reply}
use sex.ExecuteArgs.{CloneArgs, Call, build, pidfd_bit}
use sex.ExecuteArgs.Flags.{last_effect, build_bit}
use sex.Fd.{holder}
use sex.Execute.Parent.{parent_knob}
use sex.Hooks.{HookCalls, ExecuteHooksDefault, has_new_user, hooks_default}
use sex.Hooks.Mappings.{
  uid_written, groups_denied, gid_written, default_before, default_child, default_parent,
}
use sex.Execute.{ExecuteCalls, execute, has_pidfd}
use sex.Execute.Child.{EndsAs, ending_of, child_ends, child_escapes}

thrown_there : {A : Type 0} (o : Outcome A) → Throws o → (e : Exception) × (o ≡ thrown e)
thrown_there (thrown e) t = (e, refl)
thrown_there (done _) t = elim t [ ]
thrown_there terminated t = elim t [ ]
thrown_there (exited n) t = elim t [ ]

module _ {W : Type 0} (k : ExecuteCalls W) (c : HookCalls W) (f : Action W (Unit {0}))
    (args : CloneArgs) (h : ExecuteHooksDefault) (w : W) where
  open k use {pidfd_address, clone3}
  open c use {getuid, getgid, set_dumpable}

  abbrev pub given : CloneArgs
  given = if has_pidfd args then record args { pidfd = pidfd_address } else args

  -- The world after getuid and getgid, and what clone3 returns from there.
  abbrev pub remembered : W
  remembered = (getgid (getuid w).1).1

  -- The object that BeforeClone leaves: the ids of the process that calls Execute.
  abbrev pub ids : ExecuteHooksDefault
  ids = record { previous_uid = (getuid w).0; previous_gid = (getgid (getuid w).1).0 }

  given_new_user : has_new_user args ≡ true → has_new_user given ≡ true
  given_new_user n = ground arith

  escapes :
      (e : Exception) (h₁ : ExecuteHooksDefault) (w₁ : W)
      → (hooks_default c).before_clone given (h, w) ≡ (done given, (h₁, w₁))
      → (clone3 given minus_one w₁).0.0.value ≡ pos 0
      → ((hooks_default c).after_clone_child given (h₁, (clone3 given minus_one w₁).1)).0 ≡ thrown e
      → Throws (execute k (hooks_default c) f args (h, w)).0
  escapes e h₁ w₁ b z a =
      let run = (hooks_default c).after_clone_child given (h₁, (clone3 given minus_one w₁).1) in
      subst (λ r. Throws r.0)
        (sym (
          child_escapes k (hooks_default c) f args h w given h₁ run.1.0 w₁ run.1.1 e b z
            (ap (λ r. (r, run.1)) a)))
        tt

  -- What prctl and the three writes do from the world of the child, and the world they leave.
  abbrev dumpable : Reply × W
  dumpable = set_dumpable (clone3 given minus_one remembered).1

  abbrev uids : Bool × W
  uids = uid_written c given ids (getuid w).0 dumpable.1

  abbrev groups : Bool × W
  groups = groups_denied c given ids uids.1

  abbrev gids : Bool × W
  gids = gid_written c given ids (getgid (getuid w).1).0 groups.1

  abbrev pub mapped : W
  mapped = gids.1

  -- All four have succeeded.
  abbrev pub Mapped : Type 0
  Mapped = (dumpable.0.value ≢ minus_one) × (uids.0 ≡ true) × (groups.0 ≡ true) × (gids.0 ≡ true)

  -- The first of the four that has not succeeded.
  abbrev pub NotMapped : Type 0
  NotMapped =
      (dumpable.0.value ≡ minus_one)
      ⊎ (dumpable.0.value ≢ minus_one)
        × ((uids.0 ≡ false)
            ⊎ (uids.0 ≡ true) × ((groups.0 ≡ false) ⊎ (groups.0 ≡ true) × (gids.0 ≡ false)))

  -- In the process where clone3 returns 0, for a clone into a new user namespace and with the
  -- default hooks, one of two things happens. Either prctl has succeeded and the texts for uid_map,
  -- setgroups and gid_map have been put into their streams in this order, with the ids that getuid
  -- and getgid gave before the clone and with `good()` after each, and then the routine ran in the
  -- world that this left, and the process ends as the routine says: with the code 0 if it returned,
  -- with 127 if it threw, and never by an exception that leaves Execute. Or one of the four is the
  -- first to fail, prctl by its result or a stream by `good()`, and an exception leaves Execute in
  -- the child.
  pub maps_then_runs :
      has_new_user args ≡ true
      → (clone3 given minus_one remembered).0.0.value ≡ pos 0
      → let run = execute k (hooks_default c) f args (h, w) in
        Mapped × EndsAs run.0 (ending_of (f mapped).0) ⊎ NotMapped × Throws run.0
  maps_then_runs n z =
      let before = default_before c given h w (given_new_user n) in
      elim (default_child c given ids (clone3 given minus_one remembered).1 (given_new_user n)) [
        | inl (a, p, q, r, t) ↦ inl (
          (p, q, r, t),
          child_ends k (hooks_default c) f args h w given ids ids remembered _ _ _ before z a refl,
        )
        | inr (failed, t) ↦
            let (e, a) = thrown_there _ t in inr (failed, escapes e ids remembered before z a)
      ]

module _ {W : Type 0} (k : ExecuteCalls W) (c : HookCalls W) (f : Action W (Unit {0}))
    (calls : List Call) (h : ExecuteHooksDefault) (w : W) where
  open k use {pidfd_address, clone3}

  abbrev built : CloneArgs
  built =
      if has_pidfd (build calls)
      then record (build calls) { pidfd = pidfd_address }
      else build calls

  built-has_pidfd : has_pidfd built ≡ last_effect calls pidfd_bit false
  built-has_pidfd = ground (arith, build_bit calls pidfd_bit (omega arith))

  -- What BeforeClone leaves, and what clone3 gives from there.
  abbrev before : ExecuteHooksDefault × W
  before = ((hooks_default c).before_clone built (h, w)).1

  abbrev cloned : (Reply × ℤ) × W
  cloned = clone3 built minus_one before.1

  -- In the process where clone3 returns a number that is neither 0 nor -1, with the default hooks
  -- and with arguments made by any chain of builder calls, Execute returns the knob of that
  -- process; the knob owns the descriptor that the kernel stored if the last call about it in the
  -- chain is CreatePidFd, and no descriptor if it is DiscardPidFdCreation or there is none.
  pub built_knob :
      cloned.0.0.value ≢ pos 0
      → cloned.0.0.value ≢ minus_one
      → execute k (hooks_default c) f (build calls) (h, w) ≡ (
        done (record {
          pid = cloned.0.0.value;
          pid_fd = holder (if last_effect calls pidfd_bit false then cloned.0.1 else minus_one);
        }),
        (before.0, cloned.1),
      )
  built_knob n m =
      let hooked = default_parent c built h in
      rw (sym built-has_pidfd) (
        parent_knob k (hooks_default c) f (build calls) h w built before.0 before.0 before.1
          cloned.1 (ap (λ r. (r, before)) (hooked (h, w) cloned.0.0.value).0) n m
          (hooked (before.0, cloned.1) cloned.0.0.value).1)
