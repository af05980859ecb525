-- ===== src/Cgroup/Pool/Together.antt =====
-- What holds while many processes run the program of `InitializeParentCgroup`, a call at a time
-- (sex/cgroup_controller.cpp).
use sex.Common.{
  ℕ, Bool, true, false, if◌then◌else◌, ◌≤◌, ◌≡◌, ◌⊎◌, inl, inr, refl, ap, sym, ◌∙◌, arith,
}
use sex.Runtime.{Sys}
use sex.Result.{ok, error}
use sex.Calls.{ends, calls}
use sex.Flock.Laws.{exclusive}
use sex.Flock.Guarded.{GuardProgram, own_call, guarded_program}
use sex.Flock.Guarded.Pool.{Pool, ReachablePool}
use sex.Flock.Guarded.Pool.Phases.{
  Phase, opening, asking, first, converting, waiting, second, making, leaving_shared, leaving, out,
  lock_of, program_of,
}
use sex.Flock.Guarded.Pool.Discipline.{Knows}
use sex.Flock.Guarded.Pool.Together.{has_returned, pool_phases, guarded_pool_together}
use sex.Cgroup.Program.{
  exists_call, enable_root_call, create_call, enable_call, ParentAnswer, parent_initialiser,
}
use sex.Cgroup.Pool.{Group, OnGroup, first_group, IsQuiet, parent_discipline}

-- The process's next call is create_directory, or the last write.
abbrev pub next_creates : GuardProgram ParentAnswer → Bool
next_creates (calls (own_call create_call) f) = true
next_creates _ = false

abbrev pub next_enables : GuardProgram ParentAnswer → Bool
next_enables (calls (own_call enable_call) f) = true
next_enables _ = false

module _ {W : Type 0} (sys : Sys W) (there : Bool) where
  -- What the next call of a process says of the group.
  abbrev Told : Group → GuardProgram ParentAnswer → Type 0
  Told k p =
      ((next_creates p ≡ false) ⊎ (k.present ≡ false))
      × ((next_enables p ≡ false) ⊎ (k.present ≡ true) × (k.enabled ≡ false) × (k.failed ≡ false))

  phase-Told :
      (k : Group) (q : Phase ParentAnswer)
      → Knows (parent_discipline sys there) k q
      → Told k (program_of (parent_initialiser sys) sys q)
  unfolding guarded_program
  phase-Told k opening w = (inl refl, inl refl)
  phase-Told k (asking fd) w = (inl refl, inl refl)
  phase-Told k (first fd) w = (inl refl, inl refl)
  phase-Told k (converting fd) w = (inl refl, inl refl)
  phase-Told k (waiting fd) w = (inl refl, inl refl)
  phase-Told k (second fd) w = (inl refl, inl refl)
  phase-Told k (making fd (ends r)) w = (inl refl, inl refl)
  phase-Told k (making fd (calls exists_call f)) w = (inl refl, inl refl)
  phase-Told k (making fd (calls enable_root_call f)) w = (inl refl, inl refl)
  phase-Told k (making fd (calls create_call f)) w = (inr w.0.1, inl refl)
  phase-Told k (making fd (calls enable_call f)) w = (inl refl, inr (w.0.0.0, w.0.1, w.0.2))
  phase-Told k (leaving_shared fd r) w = (inl refl, inl refl)
  phase-Told k (leaving fd r) w = (inl refl, inl refl)
  phase-Told k (out r) w = (inl refl, inl refl)

  -- How often the group has been made.
  abbrev IsFew : Group → Type 0
  IsFew k = k.made ≤ (if there then 0 else 1)

  IsQuiet-IsFew : (k : Group) → IsQuiet there k → IsFew k
  IsQuiet-IsFew k q = ground (arith, q)

  phase-IsFew :
      (k : Group) (q : Phase ParentAnswer)
      → lock_of q ≡ exclusive
      → Knows (parent_discipline sys there) k q
      → IsFew k
  phase-IsFew k (second fd) l w = IsQuiet-IsFew k w
  phase-IsFew k (making fd (ends (ok u))) l w = IsQuiet-IsFew k (inr w)
  phase-IsFew k (making fd (ends (error e))) l w = IsQuiet-IsFew k w
  phase-IsFew k (making fd (calls exists_call f)) l w = elim w [ ]
  phase-IsFew k (making fd (calls enable_root_call f)) l w = IsQuiet-IsFew k (inl w.0)
  phase-IsFew k (making fd (calls create_call f)) l w = IsQuiet-IsFew k (inl w.0)
  phase-IsFew k (making fd (calls enable_call f)) l w = ground (arith, w.0.0)
  phase-IsFew k opening l w = cc
  phase-IsFew k (asking fd) l w = cc
  phase-IsFew k (first fd) l w = cc
  phase-IsFew k (converting fd) l w = cc
  phase-IsFew k (waiting fd) l w = cc
  phase-IsFew k (leaving_shared fd r) l w = cc
  phase-IsFew k (leaving fd r) l w = cc
  phase-IsFew k (out r) l w = cc

  -- However many processes run the program of `InitializeParentCgroup`, in whatever order their
  -- calls come, whatever the kernel answers and whichever calls fail: the parent group is made at
  -- most once, and not at all if it was there; it is there wherever some process has returned; it
  -- is not there where the next call of a process is create_directory; where the next call is the
  -- write to its cgroup.subtree_control, it is there, and nobody has written that file or tried to;
  -- and wherever no process has the exclusive lock, it is not there at all, or has its controllers
  -- enabled, or the write that enables them has failed.
  pub parent_pool_together :
      (x : Pool Group ParentAnswer) (t : ℕ)
      → ReachablePool OnGroup sys (parent_initialiser sys) (first_group there) x
      → (x.kernel.own.made ≤ (if there then 0 else 1))
        × ((has_returned (x.program t) ≡ false) ⊎ (x.kernel.own.present ≡ true))
        × ((next_creates (x.program t) ≡ false) ⊎ (x.kernel.own.present ≡ false))
        × ((next_enables (x.program t) ≡ false)
            ⊎ (x.kernel.own.present ≡ true)
              × (x.kernel.own.enabled ≡ false)
              × (x.kernel.own.failed ≡ false))
        × (IsQuiet there x.kernel.own ⊎ ((v : ℕ) × (x.kernel.lock v ≡ exclusive)))
  parent_pool_together x t r =
      let d = parent_discipline sys there in
      let c = pool_phases d sys x r in
      let (quiet, finished, alone) = guarded_pool_together d sys x t t r in
      let (creates, enables) = phase-Told x.kernel.own (c.phase t) (c.knows t) in
      (
        elim c.resource [
          | inl q ↦ IsQuiet-IsFew x.kernel.own q
          | inr (v, l) ↦ phase-IsFew x.kernel.own (c.phase v) (sym (c.holds v) ∙ l) (c.knows v)
        ],
        finished,
        ground (arith, ap next_creates (c.runs t), creates),
        ground (arith, ap next_enables (c.runs t), enables),
        quiet,
      )
