-- ===== src/Execute/Sandboxed.antt =====
-- A routine that enters a control group and a container, run by `Execute` with the default hooks
-- (sex/execute.cpp, sex/container.cpp, sex/cgroup_controller.cpp).
use sex.Common.{Bool, true, false, [], ◌∷◌, ◌≡◌, ◌≢◌, ◌⊎◌, inl, inr, subst, arith, Bool-cases}
use sex.Common.Int.{pos, minus_one, ◌==ℤ◌, ==ℤ→eq, ==ℤ→ne}
use sex.Runtime.{Outcome, done, thrown, terminated, exited, Throws, Action, Reply, int, ◌>>◌}
use sex.ExecuteArgs.{CloneArgs}
use sex.Hooks.{HookCalls, ExecuteHooksDefault, has_new_user, hooks_default}
use sex.Process.{ProcessKnob}
use sex.Process.Wait.{exits}
use sex.Container.{Container, ContainerCalls, enter_container}
use sex.Cgroup.{CgroupController, CgroupCalls, get_controller_path}
use sex.Cgroup.Control.{enter_cgroup}
use sex.Execute.{ExecuteCalls, execute}
use sex.Execute.Child.{EndsAs, ending_of}
use sex.Execute.Composed.{given, remembered, mapped, Mapped, NotMapped, maps_then_runs}

module _ {W : Type 0} (c : CgroupCalls W) (b : ContainerCalls W) (group : CgroupController)
    (box : Container) (body : Action W (Unit {0})) where
  open c use {getpid, write_file}
  open b use {chroot, chdir}

  -- The routine: `group.enter(); box.enter();` and then its own work.
  pub sandboxed : Action W (Unit {0})
  unfolding enter_cgroup enter_container
  sandboxed = do enter_cgroup c group; enter_container b box; body

  module _ (w : W) where
    -- The number of the process, written to cgroup.procs; chroot; and chdir.
    abbrev moved_in : Bool × W
    moved_in =
        write_file (get_controller_path c group "cgroup.procs") (int (pos (getpid w).0) ∷ [])
          (getpid w).1

    abbrev rooted : Reply × W
    rooted = chroot box.container_path moved_in.1

    abbrev at_root : Reply × W
    at_root = chdir "/" rooted.1

    abbrev pub inside : W
    inside = at_root.1

    -- All of it has succeeded.
    abbrev pub Inside : Type 0
    Inside = (moved_in.0 ≡ true) × (rooted.0.value ≢ minus_one) × (at_root.0.value ≢ minus_one)

    -- The first of the three that has not succeeded.
    abbrev pub NotInside : Type 0
    NotInside =
        (moved_in.0 ≡ false)
        ⊎ (moved_in.0 ≡ true)
          × ((rooted.0.value ≡ minus_one)
              ⊎ (rooted.0.value ≢ minus_one) × (at_root.0.value ≡ minus_one))

    sandboxed_cases : Inside × (sandboxed w ≡ body inside) ⊎ NotInside × Throws (sandboxed w).0
    unfolding sandboxed
    sandboxed_cases = elim (Bool-cases (moved_in.0)) [
      | inr m ↦ inr (inl m, ground arith)
      | inl m ↦ elim (Bool-cases (rooted.0.value ==ℤ minus_one)) [
        | inl r ↦ inr (inr (m, inl (==ℤ→eq _ _ r)), ground arith)
        | inr r ↦ elim (Bool-cases (at_root.0.value ==ℤ minus_one)) [
          | inl a ↦ inr (inr (m, inr (==ℤ→ne _ _ r, ==ℤ→eq _ _ a)), ground arith)
          | inr a ↦ inl ((m, ==ℤ→ne _ _ r, ==ℤ→ne _ _ a), ground arith)
        ]
      ]
    ]

-- A routine that throws ends its process with 127.
thrown-exits :
    (o : Outcome ProcessKnob) (r : Outcome (Unit {0}))
    → EndsAs o (ending_of r)
    → Throws r
    → EndsAs o (exits 127)
thrown-exits o (thrown e) p t = p
thrown-exits o (done _) p t = elim t [ ]
thrown-exits o terminated p t = elim t [ ]
thrown-exits o (exited n) p t = elim t [ ]

module _ {W : Type 0} (k : ExecuteCalls W) (hooks : HookCalls W) (c : CgroupCalls W)
    (b : ContainerCalls W) (group : CgroupController) (box : Container) (body : Action W (Unit {0}))
    (args : CloneArgs) (h : ExecuteHooksDefault) (w : W) where
  abbrev routine : Action W (Unit {0})
  routine = sandboxed c b group box body

  abbrev pub start : W
  start = mapped k hooks routine args h w

  -- A routine that enters a control group and a container before its work, run by Execute with the
  -- default hooks in a new user namespace, in the process where clone3 returns 0: the work is
  -- begun only when no step before it has been seen to fail. The steps are prctl and the writes of
  -- the mapping; the write of the process's number to the group's cgroup.procs; chroot to the
  -- container; and chdir to its root. A write fails if `good()` is false when its text has been
  -- put into the stream. Either all steps have succeeded, in this order, and then the work runs in
  -- the world that they left and the process ends as the work says; or the mapping has succeeded
  -- and one of the later steps is the first to fail, and the process ends with the code 127; or a
  -- step of the mapping is the first to fail, and an exception leaves Execute in the child.
  pub execute_sandboxed :
      has_new_user args ≡ true
      → (k.clone3
          (given k hooks routine args h w)
          minus_one
          (remembered k hooks routine args h w)).0.0.value
        ≡ pos 0
      → let run = execute k (hooks_default hooks) routine args (h, w) in
        Mapped k hooks routine args h w
          × Inside c b group box body start
          × EndsAs run.0 (ending_of (body (inside c b group box body start)).0)
        ⊎ Mapped k hooks routine args h w
          × NotInside c b group box body start
          × EndsAs run.0 (exits 127)
        ⊎ NotMapped k hooks routine args h w × Throws run.0
  execute_sandboxed n z =
      let run = execute k (hooks_default hooks) routine args (h, w) in
      elim (maps_then_runs k hooks routine args h w n z) [
        | inr t ↦ inr (inr t)
        | inl (m, ends) ↦ elim (sandboxed_cases c b group box body start) [
          | inl (i, e) ↦ inl (m, i, subst (λ r. EndsAs run.0 (ending_of r.0)) e ends)
          | inr (n, t) ↦ inr (inl (m, n, thrown-exits _ _ ends t))
        ]
      ]
