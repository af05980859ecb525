-- ===== src/Container/Processes/Pool/Together.antt =====
-- What holds while many processes run the program of `Initialize`, a call at a time
-- (sex/container.cpp).
use sex.Common.{ℕ, Bool, true, false, if◌then◌else◌, ◌≤◌, ◌≡◌, ◌⊎◌, inl, inr, refl, ap, arith}
use sex.Common.Int.{ℤ}
use sex.Runtime.{Outcome, done, thrown, terminated, exited, Sys}
use sex.Calls.{ends, calls}
use sex.Flock.Laws.{Mode, free, shared, exclusive}
use sex.Flock.Guarded.{guarded_program}
use sex.Flock.Guarded.Pool.Together.{has_returned}
use sex.Container.Program.{OwnAnswer, create_call, own_call, Program}
use sex.Container.Processes.{
  Place, opening, asking_shared, first_check, converting, asking_exclusive, second_check, creating,
  closing, unwinding, returned, threw,
}
use sex.Container.Processes.Together.{reachable-Consistent, initialize_together}
use sex.Container.Processes.Pool.{Pool, ReachablePool}
use sex.Container.Processes.Pool.Matches.{Failed, program_at, leaving}
use sex.Container.Processes.Pool.Simulates.{pool_refines}

-- The process's next call is create_directory.
abbrev pub is_creating : Program → Bool
is_creating (calls (own_call create_call) f) = true
is_creating _ = false

-- In the destructor of the guard a process has neither returned nor is it about to create.
leaving_lem :
    (m : Mode) (fd : ℤ) (r : Outcome (Unit {0}))
    → (has_returned (leaving m fd r) ≡ false) × (is_creating (leaving m fd r) ≡ false)
leaving_lem exclusive fd r = (refl, refl)
leaving_lem shared fd r = (refl, refl)
leaving_lem free fd r = (refl, refl)

failed_lem : (r : Outcome (Unit {0})) → Failed r → has_returned {A = OwnAnswer} (ends r) ≡ false
failed_lem (done _) f = elim f [ ]
failed_lem (thrown _) f = refl
failed_lem terminated f = refl
failed_lem (exited _) f = refl

module _ {W : Type 0} (sys : Sys W) where
  -- Only at its place has a process returned, and only at its place is it about to create.
  program_at_lem :
      (q : Place) (fd : ℤ) (r : Outcome (Unit {0}))
      → Failed r
      → ((has_returned (program_at sys q fd r) ≡ false) ⊎ (q ≡ returned))
        × ((is_creating (program_at sys q fd r) ≡ false) ⊎ (q ≡ creating))
  unfolding guarded_program
  program_at_lem returned fd r f = (inr refl, inl refl)
  program_at_lem creating fd r f = (inl refl, inr refl)
  program_at_lem threw fd r f = (inl (failed_lem r f), inl refl)
  program_at_lem (closing m) fd r f = let (a, b) = leaving_lem m fd (done tt) in (inl a, inl b)
  program_at_lem (unwinding m) fd r f = let (a, b) = leaving_lem m fd r in (inl a, inl b)
  program_at_lem opening fd r f = (inl refl, inl refl)
  program_at_lem asking_shared fd r f = (inl refl, inl refl)
  program_at_lem first_check fd r f = (inl refl, inl refl)
  program_at_lem converting fd r f = (inl refl, inl refl)
  program_at_lem asking_exclusive fd r f = (inl refl, inl refl)
  program_at_lem second_check fd r f = (inl refl, inl refl)

  -- However many processes run the program of `Initialize`, in whatever order their calls come and
  -- whatever the kernel answers: create_directory has made TmpSbox at most once, and not at all if
  -- it was there; it is there if any process has returned; and it is not there while the next call
  -- of a process is create_directory, so that this call never finds it made by another.
  pub pool_together :
      (there : Bool) (x : Pool) (t : ℕ)
      → ReachablePool sys there x
      → (x.kernel.own.created ≤ (if there then 0 else 1))
        × ((has_returned (x.program t) ≡ false) ⊎ (x.kernel.own.present ≡ true))
        × ((is_creating (x.program t) ≡ false) ⊎ (x.kernel.own.present ≡ false))
  pool_together there x t reachable =
      let (s, r, c) = pool_refines sys there x reachable in
      let k = reachable-Consistent there s r in
      let (fd, o, f, is_at, l) = c.stands t in
      let (once, here, apart) = initialize_together there s t t r in
      let (returns, creates) = program_at_lem (s.place t) fd o f in
      (
        rw c.same_created once,
        ground (arith, ap has_returned is_at, returns, here, c.same_present),
        ground (arith, ap is_creating is_at, creates, k.knows_creating t, c.same_present),
      )
