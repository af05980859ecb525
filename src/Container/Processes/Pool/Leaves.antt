-- ===== src/Container/Processes/Pool/Leaves.antt =====
-- The machine of Container/Processes follows the calls of the guard's destructor in `Initialize`
-- (sex/util/flock.hpp), up to the end of the program.
use sex.Common.{ℕ, ◌≡◌, inl, inr, refl, sym, ap, ◌∙◌, Bool-cases}
use sex.Common.Int.{ℤ, minus_one, ◌==ℤ◌, ==ℤ_ne}
use sex.Runtime.{Outcome, terminated, Sys}
use sex.Calls.{ends, Advances}
use sex.Flock.Laws.{free}
use sex.Flock.Guarded.Pool.Moves.{ended}
use sex.Container.Program.{OwnAnswer, Program, leaves, leaves_exclusive}
use sex.Container.Processes.{Place, threw, lock_of, Machine, goes, Step}
use sex.Container.Processes.Pool.{Kernel, locked, Happens, settled, Pool}
use sex.Container.Processes.Pool.Matches.{Failed, program_at, Matches}
use sex.Container.Processes.Pool.Follows.{Follows, locked_now}

module _ {W : Type 0} (sys : Sys W) (x : Pool) (s : Machine) (t : ℕ) (e' : Kernel) (p : Program)
    (c : Matches sys x s) where
  pub leaves-Follows :
      (q : Place) (fd : ℤ) (r r' : Outcome (Unit {0}))
      → Step s (goes s t q)
      → Step s (goes s t threw)
      → free ≡ lock_of q
      → Failed r'
      → ends r ≡ program_at sys q fd r'
      → Advances (Happens t x.kernel) (leaves fd r) e' p
      → Follows sys x s t e' p
  leaves-Follows q fd r r' fine failed l f is_at (a, h, k) =
      elim (Bool-cases (a.value ==ℤ minus_one)) [
        | inl e ↦
            locked_now sys x s t e' p c threw fd terminated failed tt (k ∙ rw e refl)
              (ended x.kernel t OwnAnswer terminated e' h)
        | inr e ↦ locked_now sys x s t e' p c q fd r' fine f (k ∙ rw e is_at) (
            ap (λ z. settled t z e') (sym is_at)
            ∙ ended x.kernel t OwnAnswer r e' h
            ∙ ap (λ m. locked x.kernel t m) l)
      ]

  pub leaves_exclusive-Follows :
      (q : Place) (fd : ℤ) (r r' : Outcome (Unit {0}))
      → Step s (goes s t q)
      → Step s (goes s t threw)
      → free ≡ lock_of q
      → Failed r'
      → leaves fd r ≡ program_at sys q fd r'
      → Advances (Happens t x.kernel) (leaves_exclusive fd r) e' p
      → Follows sys x s t e' p
  leaves_exclusive-Follows q fd r r' fine failed l f is_at (a, inl (e, h), k) =
      locked_now sys x s t e' p c threw fd terminated failed tt (k ∙ rw e refl)
        (ap (λ z. locked z t free) h)
  leaves_exclusive-Follows q fd r r' fine failed l f is_at (a, inr (e, h), k) =
      locked_now sys x s t e' p c q fd r' fine f (k ∙ rw (==ℤ_ne _ _ e) is_at)
        (ap (λ z. settled t z e') (sym is_at) ∙ h ∙ ap (λ m. locked x.kernel t m) l)
