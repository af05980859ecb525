-- ===== src/Cgroup/Making.antt =====
-- How the constructor of CgroupController ends, and what it leaves in the file system, also when it
-- fails (sex/cgroup_controller.cpp).
use sex.Common.{ℕ, String, Bool, ◌≡◌, ◌==◌, ◌≢◌, ◌⊎◌, inl, inr, refl, arith, Bool-cases}
use sex.Runtime.{Outcome, done, thrown, terminated, exited, filesystem_error}
use sex.Once.{Once, invoke}
use sex.Cgroup.{Builder, CgroupCalls, CgroupController, sbox_cgroup, initialize_parent_cgroup}
use sex.Cgroup.Control.{create_cgroup, set_limits}

-- A call ends as another did that did not return.
abbrev FailsAs : {A B : Type 0} → Outcome A → Outcome B → Type 0
FailsAs (done a) r = ⊥
FailsAs (thrown e) r = r ≡ thrown e
FailsAs terminated r = r ≡ terminated
FailsAs (exited n) r = r ≡ exited n

module _ {W : Type 0} (k : CgroupCalls W) (name : String) (options : Builder) (o : Once)
    (w : W) where
  open k use {create_directory, join}

  abbrev made : CgroupController
  made = record { cgroup_path = join (sbox_cgroup k) name }

  abbrev first : Outcome (Unit {0}) × (Once × W)
  first = invoke (initialize_parent_cgroup k) (o, w)

  abbrev directory : (Bool × ℕ) × W
  directory = create_directory made.cgroup_path first.1.1

  abbrev limited : Outcome (Unit {0}) × W
  limited = set_limits k made options directory.1

  abbrev whole : Outcome CgroupController × (Once × W)
  whole = create_cgroup k name options (o, w)

  -- The cases of `create_cgroup_cases`.
  abbrev pub ParentFails : Type 0
  ParentFails = FailsAs first.0 whole.0 × (whole.1 ≡ first.1)

  abbrev pub DirectoryFails : Type 0
  DirectoryFails =
      (first.0 ≡ done tt)
      × (directory.0.1 ≢ 0)
      × (whole ≡ (thrown (filesystem_error directory.0.1), (first.1.0, directory.1)))

  abbrev pub LimitsFail : Type 0
  LimitsFail =
      (first.0 ≡ done tt)
      × (directory.0.1 ≡ 0)
      × FailsAs limited.0 whole.0
      × (whole.1 ≡ (first.1.0, limited.1))

  abbrev pub Made : Type 0
  Made =
      (first.0 ≡ done tt)
      × (directory.0.1 ≡ 0)
      × (limited.0 ≡ done tt)
      × (whole ≡ (done made, (first.1.0, limited.1)))

  by_limits :
      (r : Outcome (Unit {0}))
      → limited.0 ≡ r
      → first.0 ≡ done tt
      → directory.0.1 ≡ 0
      → LimitsFail ⊎ Made
  unfolding create_cgroup
  by_limits (done _) e f d = inr (f, d, e, ground arith)
  by_limits (thrown x) e f d = inl (f, d, ground arith, ground arith)
  by_limits terminated e f d = inl (f, d, ground arith, ground arith)
  by_limits (exited n) e f d = inl (f, d, ground arith, ground arith)

  directory_fails : first.0 ≡ done tt → directory.0.1 ≢ 0 → DirectoryFails
  unfolding create_cgroup
  directory_fails f d = (f, d, ground arith)

  by_directory : first.0 ≡ done tt → ParentFails ⊎ DirectoryFails ⊎ LimitsFail ⊎ Made
  by_directory f = elim (Bool-cases (directory.0.1 == 0)) [
    | inl z ↦ inr (inr (by_limits limited.0 refl f (ground arith)))
    | inr n ↦ inr (inl (directory_fails f (λ e. ground arith)))
  ]

  by_first :
      (r : Outcome (Unit {0})) → first.0 ≡ r → ParentFails ⊎ DirectoryFails ⊎ LimitsFail ⊎ Made
  unfolding create_cgroup
  by_first (done _) e = by_directory e
  by_first (thrown x) e = inl (ground arith)
  by_first terminated e = inl (ground arith)
  by_first (exited n) e = inl (ground arith)

  -- The constructor of CgroupController ends in one of four ways. The initialisation of the parent
  -- group did not return, and the constructor ends as it did, with no further call. Or the
  -- group's directory could not be made, and the error of create_directory is thrown, with
  -- nothing written. Or a limit could not be set, and the constructor ends as that did: nothing
  -- runs after it, so that the new directory is not removed. Or the object is made.
  pub create_cgroup_cases : ParentFails ⊎ DirectoryFails ⊎ LimitsFail ⊎ Made
  create_cgroup_cases = by_first first.0 refl
