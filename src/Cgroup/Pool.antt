-- ===== src/Cgroup/Pool.antt =====
-- Many processes in `InitializeParentCgroup` (sex/cgroup_controller.cpp), which run its program a
-- call at a time: what its calls do to the parent group, and the discipline that they keep.
pub mod Together
pub mod Ends
mod Tests
use sex.Common.{
  ℕ, suc, Bool, true, false, ◌==◌, if◌then◌else◌, ◌≡◌, ◌≢◌, ◌⊎◌, inl, inr, refl, ap, sym, subst,
  ◌∙◌, arith, Bool-cases,
}
use sex.Runtime.{Exception, filesystem_error, Sys}
use sex.Result.{Result, ok, error}
use sex.Calls.{CallProgram, ends, calls}
use sex.Container.Program.{fs_result}
use sex.Flock.Guarded.Pool.{Pool, ReachablePool}
use sex.Flock.Guarded.Pool.Phases.{decided}
use sex.Flock.Guarded.Pool.Discipline.{Discipline}
use sex.Cgroup.Program.{
  ParentCall, exists_call, enable_root_call, create_call, enable_call, ParentAnswer, Making,
  after_enable, after_create, after_enable_root, parent_initialiser,
}

-- The parent group: whether it is there and has its controllers enabled, whether enabling them has
-- failed, and how often create_directory has made it.
pub record Group : Type 0 where
  pub present : Bool
  pub enabled : Bool
  pub failed : Bool
  pub made : ℕ

-- What the calls do, and answer. Any call may fail; the write to the root group touches no parent
-- group.
abbrev pub OnGroup : Group → (c : ParentCall) → ParentAnswer c → Group → Type 0
OnGroup k exists_call a k' = (a.1 ≢ 0) × (k' ≡ k) ⊎ (a.1 ≡ 0) × (a.0 ≡ k.present) × (k' ≡ k)
OnGroup k enable_root_call good k' = k' ≡ k
OnGroup k create_call a k' =
    (a.1 ≢ 0) × (k' ≡ k)
    ⊎ (a.1 ≡ 0)
      × (k' ≡ record k { present = true; made = if k.present then k.made else suc k.made })
OnGroup k enable_call good k' =
    (good ≡ true) × (k' ≡ record k { enabled = true })
    ⊎ (good ≡ false) × (k' ≡ record k { failed = true })

-- The states in which the group may be. At first it is there and complete, or not there.
abbrev pub first_group : Bool → Group
first_group there = record { present = there; enabled = there; failed = false; made = 0 }

abbrev pub IsAbsent : Bool → Group → Type 0
IsAbsent there k =
    (there ≡ false) × (k.present ≡ false) × (k.made ≡ 0) × (k.enabled ≡ false) × (k.failed ≡ false)

abbrev pub IsMade : Bool → Group → Type 0
IsMade there k = (k.present ≡ true) × (k.made ≡ (if there then 0 else 1))

-- Between create_directory and the last write.
abbrev pub IsHalf : Bool → Group → Type 0
IsHalf there k = IsMade there k × (k.enabled ≡ false) × (k.failed ≡ false)

-- Complete, or left without its controllers after the last write has failed.
abbrev pub IsWhole : Bool → Group → Type 0
IsWhole there k = IsMade there k × ((k.enabled ≡ true) ⊎ (k.failed ≡ true))

abbrev pub IsQuiet : Bool → Group → Type 0
IsQuiet there k = IsAbsent there k ⊎ IsWhole there k

module _ {W : Type 0} (sys : Sys W) (there : Bool) where
  -- What holds where this much of the making is left.
  abbrev pub IsDuring : Group → Making → Type 0
  IsDuring k (ends (ok _)) = IsWhole there k
  IsDuring k (ends (error e)) = IsQuiet there k
  IsDuring k (calls enable_root_call f) = IsAbsent there k × (f ≡ after_enable_root sys)
  IsDuring k (calls create_call f) = IsAbsent there k × (f ≡ after_create sys)
  IsDuring k (calls enable_call f) = IsHalf there k × (f ≡ after_enable sys)
  IsDuring k (calls exists_call f) = ⊥

  -- The check only looks, and what it finds is there.
  pub looks : (k k' : Group) (a : Bool × ℕ) → OnGroup k exists_call a k' → k' ≡ k
  looks k k' a h = ground (arith, h)

  pub told :
      (k k' : Group) (a : Bool × ℕ) → OnGroup k exists_call a k' → (a.1 ≢ 0) ⊎ (a.0 ≡ k.present)
  told k k' a h = ground (arith, h)

  pub finds :
      (k k' : Group) (a : Bool × ℕ)
      → OnGroup k exists_call a k'
      → fs_result a ≡ ok true
      → k.present ≡ true
  finds k k' a h f = ground (arith, h, f)

  pub decides :
      (k : Group) (a : Bool × ℕ) (r : Result Bool)
      → IsQuiet there k
      → fs_result a ≡ r
      → (a.1 ≢ 0) ⊎ (a.0 ≡ k.present)
      → IsDuring k (decided (parent_initialiser sys) r)
  decides k a (ok true) q f e = ground (arith, q, f, e)
  decides k a (ok false) q f e = elim q [
    | inl s ↦ (s, refl)
    | inr m ↦ absurd (ground (arith, m, f, e))
  ]
  decides k a (error x) q f e = q

  after_root-IsDuring :
      (k : Group) (good : Bool) → IsAbsent there k → IsDuring k (after_enable_root sys good)
  after_root-IsDuring k true b = (b, refl)
  after_root-IsDuring k false b = inl b

  after_create-IsDuring :
      (k k' : Group) (a : Bool × ℕ)
      → IsAbsent there k
      → OnGroup k create_call a k'
      → IsDuring k' (after_create sys a)
  after_create-IsDuring k k' a b (inl (z, h)) =
      let failed : (a.1 == 0) ≡ false = ground arith in
      rw failed (inl (subst (IsAbsent there) (sym h) b))
  after_create-IsDuring k k' a b (inr (z, h)) =
      let fine : (a.1 == 0) ≡ true = ground arith in
      rw fine (subst (IsHalf there) (sym h) (ground (arith, b)), refl)

  after_enable-IsDuring :
      (k k' : Group) (good : Bool)
      → IsHalf there k
      → OnGroup k enable_call good k'
      → IsDuring k' (after_enable sys good)
  after_enable-IsDuring k k' true m (inl (z, h)) = subst (IsWhole there) (sym h) (m.0, inl refl)
  after_enable-IsDuring k k' true m (inr (z, h)) = absurd (ground arith)
  after_enable-IsDuring k k' false m (inl (z, h)) = absurd (ground arith)
  after_enable-IsDuring k k' false m (inr (z, h)) =
      inr (subst (IsWhole there) (sym h) (m.0, inr refl))

  pub makes :
      (k k' : Group) (c : ParentCall) (f : ParentAnswer c → Making) (a : ParentAnswer c)
      → IsDuring k (calls c f)
      → OnGroup k c a k'
      → IsDuring k' (f a)
  makes k k' exists_call f a w h = elim w [ ]
  makes k k' enable_root_call f a (b, s) h =
      subst (λ z. IsDuring z (f a)) (sym h) (rw s (after_root-IsDuring k a b))
  makes k k' create_call f a (b, s) h = rw s (after_create-IsDuring k k' a b h)
  makes k k' enable_call f a (m, s) h = rw s (after_enable-IsDuring k k' a m h)

  pub stays_present :
      (k k' : Group) (c : ParentCall) (a : ParentAnswer c)
      → OnGroup k c a k'
      → k.present ≡ true
      → k'.present ≡ true
  stays_present k k' exists_call a h p = ground (arith, h, p)
  stays_present k k' enable_root_call a h p = ground (arith, h, p)
  stays_present k k' create_call a h p = ground (arith, h, p)
  stays_present k k' enable_call a h p = ground (arith, h, p)

  pub begins : IsQuiet there (first_group there)
  begins = elim (Bool-cases there) [
    | inl y ↦ inr ((y, rw y refl), inl y)
    | inr n ↦ inl (n, n, refl, n, refl)
  ]

  pub ends-IsQuiet : (k : Group) (r : Result (Unit {0})) → IsDuring k (ends r) → IsQuiet there k
  ends-IsQuiet k (ok u) w = inr w
  ends-IsQuiet k (error e) w = w

  -- The discipline.
  abbrev pub parent_discipline : Discipline OnGroup (parent_initialiser sys) (first_group there)
  parent_discipline = record {
    Quiet = IsQuiet there;
    During = IsDuring;
    Finished = λ k. k.present ≡ true;
    begins = begins;
    check_keeps = looks;
    check_finds = λ k k' a q. finds k k' a;
    check_decides = λ k k' a q h. decides k a (fs_result a) q refl (told k k' a h);
    makes = makes;
    stays_finished = λ k k' c f a w h p. stays_present k k' c a h p;
    leaves_quiet = ends-IsQuiet;
    leaves_finished = λ k w. w.0.0;
  }
