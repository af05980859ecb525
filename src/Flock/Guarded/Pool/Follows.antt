-- ===== src/Flock/Guarded/Pool/Follows.antt =====
-- The phases of a pool follow each call of a process (sex/util/flock.hpp).
use sex.Common.{
  ℕ, Bool, true, false, ◌==◌, if◌then◌else◌, ◌≡◌, ◌≢◌, ◌⊎◌, inl, inr, refl, ap, sym, subst, ◌∙◌,
  arith, Bool-cases,
}
use sex.Common.Int.{ℤ, minus_one, ◌==ℤ◌, ==ℤ_ne}
use sex.Runtime.{Outcome, done, thrown, terminated, Sys}
use sex.Result.{Result, ok, error}
use sex.Calls.{ends, calls, Advances}
use sex.Flock.Laws.{free, shared, exclusive}
use sex.Flock.Guarded.{
  GuardProgram, Initialiser, outcome_of, open_failure, flock_failure, leaves, then_leaves,
  after_second, after_first, guarded_program,
}
use sex.Flock.Guarded.Pool.{Kernel, locked, Pool, settled, goes_on_with, Happens}
use sex.Flock.Guarded.Pool.Phases.{
  Phase, opening, asking, first, converting, waiting, second, making, leaving_shared, leaving, out,
  lock_of, decided, program_of,
}
use sex.Flock.Guarded.Pool.Discipline.{Discipline, Knows, Returns, Phases}
use sex.Flock.Guarded.Pool.Moves.{
  ended, settled_making, stays, makes_on, releases, gets_shared, gets_exclusive,
}

module _ {K C W : Type 0} {A : C → Type 0} {Own : K → (c : C) → A c → K → Type 0}
    {i : Initialiser A} {k₀ : K} (d : Discipline Own i k₀) (sys : Sys W) (x : Pool K A)
    (c : Phases d sys x) (t : ℕ) (e : Kernel K) (p : GuardProgram A) where
  open d use {Quiet, Finished}
  open c use {phase, runs, holds, knows, apart, resource}

  abbrev Goal : Type 0
  Goal = Phases d sys (goes_on_with x t e p)

  next :
      (q : Phase A)
      → p ≡ program_of i sys q
      → (u : ℕ)
      → (goes_on_with x t e p).program u ≡ (if t == u then program_of i sys q else x.program u)
  next q is u = ap (λ z. if t == u then z else x.program u) is

  -- The kernel as it was, and the lock.
  kept :
      (q₀ q : Phase A)
      → phase t ≡ q₀
      → p ≡ program_of i sys q
      → settled t (program_of i sys q) e ≡ x.kernel
      → lock_of q ≡ lock_of q₀
      → Knows d x.kernel.own q
      → Goal
  kept q₀ q at is same l own =
      stays d sys x c t q (goes_on_with x t e p) (next q is) (ap (λ z. settled t z e) is ∙ same)
        (l ∙ ap lock_of (sym at)) own

  freed :
      (q : Phase A)
      → p ≡ program_of i sys q
      → settled t (program_of i sys q) e ≡ locked x.kernel t free
      → lock_of q ≡ free
      → Knows d x.kernel.own q
      → Quiet x.kernel.own ⊎ (x.kernel.lock t ≢ exclusive)
      → Goal
  freed q is same l own quiet =
      releases d sys x c t q (goes_on_with x t e p) (next q is) (ap (λ z. settled t z e) is ∙ same)
        l own quiet

  opening_goes :
      phase t ≡ opening → Advances (Happens Own t x.kernel) (guarded_program sys i) e p → Goal
  unfolding guarded_program
  opening_goes at (a, h, is) = elim (Bool-cases (a.value ==ℤ minus_one)) [
    | inl n ↦ kept opening (out (thrown (open_failure sys a))) at (is ∙ rw n refl) h refl tt
    | inr n ↦ kept opening (asking a.value) at (is ∙ rw n refl) h refl tt
  ]

  asking_goes :
      (fd : ℤ)
      → phase t ≡ asking fd
      → Advances (Happens Own t x.kernel) (program_of i sys (asking fd)) e p
      → Goal
  asking_goes fd at (a, inl (n, h), is) =
      kept (asking fd) (leaving fd (thrown (flock_failure sys a))) at (is ∙ rw n refl) h refl tt
  asking_goes fd at (a, inr (n, none, h), is) =
      let is' : p ≡ program_of i sys (first fd) = is ∙ rw (==ℤ_ne _ _ n) refl in
      gets_shared d sys x c t (first fd) (goes_on_with x t e p) (next (first fd) is')
        (ap (λ z. settled t z e) is' ∙ h) refl none tt

  converting_goes :
      (fd : ℤ)
      → phase t ≡ converting fd
      → Advances (Happens Own t x.kernel) (program_of i sys (converting fd)) e p
      → Goal
  converting_goes fd at (a, inl (n, h), is) =
      kept (converting fd) (leaving_shared fd (thrown (flock_failure sys a))) at (is ∙ rw n refl) h
        refl tt
  converting_goes fd at (a, inr (n, none, h), is) =
      absurd (ground (arith, none t, holds t, ap lock_of at))

  waiting_goes :
      (fd : ℤ)
      → phase t ≡ waiting fd
      → Advances (Happens Own t x.kernel) (program_of i sys (waiting fd)) e p
      → Goal
  waiting_goes fd at (a, inl (n, h), is) =
      kept (waiting fd) (leaving fd (thrown (flock_failure sys a))) at (is ∙ rw n refl) h refl tt
  waiting_goes fd at (a, inr (n, none, h), is) =
      let is' : p ≡ program_of i sys (second fd) = is ∙ rw (==ℤ_ne _ _ n) refl in
      gets_exclusive d sys x c t (second fd) (goes_on_with x t e p) (next (second fd) is')
        (ap (λ z. settled t z e) is' ∙ h) refl none (λ k. k)

  -- Where this process has a shared lock, nobody has the exclusive one.
  quiet_shared : lock_of (phase t) ≡ shared → Quiet x.kernel.own
  quiet_shared l = elim resource [
    | inl k ↦ k
    | inr (u, h) ↦ absurd (ground (arith, apart u t h, holds t, h, l, ap x.kernel.lock))
  ]

  first_goes :
      (fd : ℤ) (r : Result Bool) (a : A i.check) (k : K)
      → phase t ≡ first fd
      → i.found a ≡ r
      → Own x.kernel.own i.check a k
      → e ≡ x.kernel
      → p ≡ after_first sys i fd r
      → Goal
  first_goes fd (ok true) a k at f own h is =
      kept (first fd) (leaving_shared fd (done tt)) at is h refl
        (d.check_finds x.kernel.own k a (quiet_shared (ap lock_of at)) own f)
  first_goes fd (ok false) a k at f own h is = kept (first fd) (converting fd) at is h refl tt
  first_goes fd (error y) a k at f own h is =
      kept (first fd) (leaving_shared fd (thrown y)) at is h refl tt

  after_second_lem : (fd : ℤ) (r : Result Bool) → after_second i fd r ≡ then_leaves fd (decided i r)
  after_second_lem fd (ok true) = refl
  after_second_lem fd (ok false) = refl
  after_second_lem fd (error y) = refl

  -- An own call that has kept what it works on.
  kernel_kept : (k : K) → k ≡ x.kernel.own → e ≡ record x.kernel { own = k } → e ≡ x.kernel
  kernel_kept k s h = h ∙ ap (λ z. record x.kernel { own = z }) s

  leaving_goes :
      (q₀ : Phase A) (fd : ℤ) (r : Outcome (Unit {0}))
      → phase t ≡ q₀
      → lock_of q₀ ≢ exclusive
      → Returns d x.kernel.own r
      → Advances (Happens Own t x.kernel) (leaves fd r) e p
      → Goal
  leaving_goes q₀ fd r at n own (a, h, is) =
      let quiet = inr (λ l. n (ap lock_of (sym at) ∙ sym (holds t) ∙ l)) in
      elim (Bool-cases (a.value ==ℤ minus_one)) [
        | inl m ↦
            freed (out terminated) (is ∙ rw m refl) (ended x.kernel t A terminated e h) refl tt
              quiet
        | inr m ↦ freed (out r) (is ∙ rw m refl) (ended x.kernel t A r e h) refl own quiet
      ]

  returns_lem : (k : K) (r : Result (Unit {0})) → d.During k (ends r) → Returns d k (outcome_of r)
  returns_lem k (ok u) w = d.leaves_finished k w
  returns_lem k (error y) w = tt

  phase_goes :
      (q : Phase A)
      → phase t ≡ q
      → Knows d x.kernel.own q
      → Advances (Happens Own t x.kernel) (program_of i sys q) e p
      → Goal
  phase_goes opening at w a = opening_goes at a
  phase_goes (asking fd) at w a = asking_goes fd at a
  phase_goes (first fd) at w (a, (k, own, h), is) =
      first_goes fd (i.found a) a k at refl own (kernel_kept k (d.check_keeps _ k a own) h) is
  phase_goes (converting fd) at w a = converting_goes fd at a
  phase_goes (waiting fd) at w a = waiting_goes fd at a
  phase_goes (second fd) at w (a, (k, own, h), is) =
      kept (second fd) (making fd (decided i (i.found a))) at (is ∙ after_second_lem fd (i.found a))
        (settled_making x.kernel t fd (decided i (i.found a)) e
          ∙ kernel_kept k (d.check_keeps _ k a own) h)
        refl (d.check_decides _ k a w own)
  phase_goes (making fd (calls b f)) at w (a, (k, own, h), is) =
      makes_on d sys x c t (making fd (f a)) (goes_on_with x t e p) (next (making fd (f a)) is) k
        (ap (λ z. settled t z e) is ∙ settled_making x.kernel t fd (f a) e ∙ h) refl
        (holds t ∙ ap lock_of at) (d.makes _ k b f a w own) (d.stays_finished _ k b f a w own)
  phase_goes (making fd (ends r)) at w (a, inl (n, h), is) =
      freed (out terminated) (is ∙ rw n refl) (ap (λ z. locked z t free) h) refl tt
        (inl (d.leaves_quiet _ r w))
  phase_goes (making fd (ends r)) at w (a, inr (n, h), is) =
      freed (leaving fd (outcome_of r)) (is ∙ rw (==ℤ_ne _ _ n) refl) h refl (returns_lem _ r w)
        (inl (d.leaves_quiet _ r w))
  phase_goes (leaving_shared fd r) at w a =
      leaving_goes (leaving_shared fd r) fd r at (λ l. ground arith) w a
  phase_goes (leaving fd r) at w a = leaving_goes (leaving fd r) fd r at (λ l. ground arith) w a
  phase_goes (out r) at w a = elim a [ ]

  pub call_goes : Advances (Happens Own t x.kernel) (x.program t) e p → Goal
  call_goes a =
      phase_goes (phase t) refl (knows t)
        (subst (λ z. Advances (Happens Own t x.kernel) z e p) (runs t) a)
