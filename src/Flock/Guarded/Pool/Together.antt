-- ===== src/Flock/Guarded/Pool/Together.antt =====
-- What holds while many processes run a guarded program, a call at a time (sex/util/flock.hpp).
use sex.Common.{
  ℕ, Bool, true, false, ◌==◌, ◌≡◌, ◌≢◌, ◌⊎◌, inl, inr, refl, ap, sym, subst, ◌∙◌, arith, Bool-cases,
}
use sex.Common.Int.{ℤ}
use sex.Runtime.{done, thrown, terminated, exited, Sys}
use sex.Calls.{ends, calls}
use sex.Flock.Laws.{Mode, free, shared, exclusive}
use sex.Flock.Guarded.{GuardProgram, Initialiser, guarded_program}
use sex.Flock.Guarded.Pool.{
  locked, Pool, Converts, advances, gives_up, ReachablePool, pool_start, pool_after,
}
use sex.Flock.Guarded.Pool.Phases.{
  Phase, opening, asking, first, converting, waiting, second, making, leaving_shared, leaving, out,
  lock_of, program_of,
}
use sex.Flock.Guarded.Pool.Discipline.{Discipline, Knows, Phases}
use sex.Flock.Guarded.Pool.Moves.{releases}
use sex.Flock.Guarded.Pool.Follows.{call_goes}

exclusive_or_not : (m : Mode) → (m ≢ exclusive) ⊎ (m ≡ exclusive)
exclusive_or_not free = inl (λ e. ground arith)
exclusive_or_not shared = inl (λ e. ground arith)
exclusive_or_not exclusive = inr refl

module _ {C : Type 0} {A : C → Type 0} where
  -- The process has returned from the initialiser.
  abbrev pub has_returned : GuardProgram A → Bool
  has_returned (ends (done _)) = true
  has_returned _ = false

  module _ {W : Type 0} (i : Initialiser A) (sys : Sys W) where
    -- Only where a process has a shared lock and asks for the exclusive one may the lock be taken.
    Converts-phase :
        (q : Phase A)
        → Converts (program_of i sys q)
        → lock_of q ≡ shared
        → (fd : ℤ) × (q ≡ converting fd)
    unfolding guarded_program
    Converts-phase (converting fd) a l = (fd, refl)
    Converts-phase (waiting fd) a l = absurd (ground arith)
    Converts-phase opening a l = elim a [ ]
    Converts-phase (asking fd) a l = elim a [ ]
    Converts-phase (first fd) a l = elim a [ ]
    Converts-phase (second fd) a l = elim a [ ]
    Converts-phase (making fd (ends r)) a l = elim a [ ]
    Converts-phase (making fd (calls c f)) a l = elim a [ ]
    Converts-phase (leaving_shared fd r) a l = elim a [ ]
    Converts-phase (leaving fd r) a l = elim a [ ]
    Converts-phase (out r) a l = elim a [ ]

    returned_phase :
        (q : Phase A) → (has_returned (program_of i sys q) ≡ false) ⊎ (q ≡ out (done tt))
    unfolding guarded_program
    returned_phase (out (done _)) = inr refl
    returned_phase (out (thrown e)) = inl refl
    returned_phase (out terminated) = inl refl
    returned_phase (out (exited n)) = inl refl
    returned_phase opening = inl refl
    returned_phase (asking fd) = inl refl
    returned_phase (first fd) = inl refl
    returned_phase (converting fd) = inl refl
    returned_phase (waiting fd) = inl refl
    returned_phase (second fd) = inl refl
    returned_phase (making fd (ends r)) = inl refl
    returned_phase (making fd (calls c f)) = inl refl
    returned_phase (leaving_shared fd r) = inl refl
    returned_phase (leaving fd r) = inl refl

module _ {K C W : Type 0} {A : C → Type 0} {Own : K → (c : C) → A c → K → Type 0}
    {i : Initialiser A} {k₀ : K} (d : Discipline Own i k₀) (sys : Sys W) where
  open d use {Quiet, Finished}

  taken :
      (x : Pool K A) (t : ℕ)
      → Phases d sys x
      → Converts (x.program t)
      → x.kernel.lock t ≡ shared
      → Phases d sys (record x { kernel = locked x.kernel t free })
  taken x t c a l =
      let (fd, at) =
        Converts-phase i sys (c.phase t) (subst Converts (c.runs t) a) (sym (c.holds t) ∙ l) in
      releases d sys x c t (waiting fd) (record x { kernel = locked x.kernel t free })
        (λ u. elim (Bool-cases (t == u)) [
          | inl s ↦
              let same : t ≡ u = ground arith in
              rw s (ap x.program (sym same) ∙ c.runs t ∙ ap (λ q. program_of i sys q) at)
          | inr o ↦ rw o refl
        ])
        refl refl tt (inr (λ h. ground (arith, l, h)))

  pub pool_phases : (x : Pool K A) → ReachablePool Own sys i k₀ x → Phases d sys x
  pool_phases x pool_start = record {
    phase = λ t. opening;
    runs = λ t. refl;
    holds = λ t. refl;
    knows = λ t. tt;
    apart = λ t u h. inr refl;
    resource = inl d.begins;
  }
  pool_phases x' (pool_after x _ r (advances t e p a)) = call_goes d sys x (pool_phases x r) t e p a
  pool_phases x' (pool_after x _ r (gives_up t a l)) = taken x t (pool_phases x r) a l

  -- For any initialiser that keeps a discipline, and however many processes run its guarded
  -- program, in whatever order their calls come and whatever the kernel answers: what holds of a
  -- quiet resource holds wherever no process has the exclusive lock; what the making brings about
  -- holds wherever some process has returned; and while one process has the exclusive lock no other
  -- has any.
  pub guarded_pool_together :
      (x : Pool K A) (t u : ℕ)
      → ReachablePool Own sys i k₀ x
      → (Quiet x.kernel.own ⊎ ((v : ℕ) × (x.kernel.lock v ≡ exclusive)))
        × ((has_returned (x.program t) ≡ false) ⊎ Finished x.kernel.own)
        × ((x.kernel.lock t ≢ exclusive) ⊎ (t ≡ u) ⊎ (x.kernel.lock u ≡ free))
  guarded_pool_together x t u r =
      let c = pool_phases x r in
      (
        c.resource,
        elim (returned_phase i sys (c.phase t)) [
          | inl n ↦ inl (ap has_returned (c.runs t) ∙ n)
          | inr o ↦ inr (subst (λ q. Knows d x.kernel.own q) o (c.knows t))
        ],
        elim (exclusive_or_not (x.kernel.lock t)) [ inl n ↦ inl n | inr h ↦ inr (c.apart t u h) ],
      )
