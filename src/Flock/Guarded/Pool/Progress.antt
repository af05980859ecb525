-- ===== src/Flock/Guarded/Pool/Progress.antt =====
-- Processes that run a guarded program, a call at a time, do not block one another on the lock file
-- (sex/util/flock.hpp).
use sex.Common.{
  ℕ, zero, suc, Bool, true, false, ltb, ◌≤◌, ◌<◌, ◌≡◌, ◌≢◌, ◌⊎◌, inl, inr, refl, ap, sym, subst,
  ◌∙◌, arith, Bool-cases,
}
use sex.Common.Int.{ℤ, pos, minus_one}
use sex.Runtime.{Outcome, Reply, Sys}
use sex.Calls.{ends, calls, Advances}
use sex.Flock.Laws.{free, shared, exclusive}
use sex.Flock.Guarded.{
  GuardCall, open_call, flock_call, close_call, own_call, GuardAnswer, GuardProgram, Initialiser,
  leaves, guarded_program,
}
use sex.Flock.Guarded.Pool.{Kernel, Happens, Converts, Pool, ReachablePool}
use sex.Flock.Guarded.Pool.Phases.{
  Phase, opening, asking, first, converting, waiting, second, making, leaving_shared, leaving, out,
  lock_of, program_of,
}
use sex.Flock.Guarded.Pool.Discipline.{Discipline, Phases}
use sex.Flock.Guarded.Pool.Together.{pool_phases}

-- The answer reports no error: of a call on the lock file, or as the client says.
abbrev pub IsFine :
    {C : Type 0} {A : C → Type 0}
    → ((c : C) → A c → Type 0)
    → (c : GuardCall C) → GuardAnswer A c
    → Type 0
IsFine F open_call a = a.value ≢ minus_one
IsFine F (flock_call fd op) a = a.value ≢ minus_one
IsFine F (close_call fd) a = a.value ≢ minus_one
IsFine F (own_call c) a = F c a

module _ {C : Type 0} {A : C → Type 0} where
  -- The process has not begun: its next call is open.
  abbrev pub is_beginning : GuardProgram A → Bool
  is_beginning (calls open_call f) = true
  is_beginning _ = false

  -- The process is out of the initialiser.
  abbrev pub has_ended : GuardProgram A → Bool
  has_ended (ends r) = true
  has_ended _ = false

  abbrev has_lock : Phase A → Bool
  has_lock q = elim (lock_of q) [ free ↦ false | shared ↦ true | exclusive ↦ true ]

  no_lock : (q : Phase A) → has_lock q ≡ false → lock_of q ≡ free
  no_lock q h = ground arith

  -- Among the first processes one has a lock, or none has.
  some_holder :
      (n : ℕ) (f : ℕ → Phase A)
      → ((u : ℕ) × (has_lock (f u) ≡ true)) ⊎ ((u : ℕ) → u < n → has_lock (f u) ≡ false)
  some_holder zero f = inr (λ u h. absurd (omega arith))
  some_holder (suc n) f = elim (some_holder n f) [
    | inl found ↦ inl found
    | inr none ↦ elim (Bool-cases (has_lock (f n))) [
      | inl e ↦ inl (n, e)
      | inr e ↦ inr (λ u h. elim (Bool-cases (ltb u n)) [
        | inl l ↦ none u (ground arith)
        | inr l ↦ let same : u ≡ n = ground arith in ap (λ j. has_lock (f j)) same ∙ e
      ])
    ]
  ]

  module _ {W : Type 0} (i : Initialiser A) (sys : Sys W) where
    beginning_lem : (q : Phase A) → is_beginning (program_of i sys q) ≡ true → has_lock q ≡ false
    unfolding guarded_program
    beginning_lem opening b = refl
    beginning_lem (asking fd) b = refl
    beginning_lem (waiting fd) b = refl
    beginning_lem (leaving fd r) b = refl
    beginning_lem (out r) b = refl
    beginning_lem (first fd) b = cc
    beginning_lem (converting fd) b = cc
    beginning_lem (second fd) b = cc
    beginning_lem (making fd (ends r)) b = cc
    beginning_lem (making fd (calls c f)) b = cc
    beginning_lem (leaving_shared fd r) b = cc

abbrev zero_reply : Reply
zero_reply = record { value = pos 0; errno = 0 }

zero_fine : zero_reply.value ≢ minus_one
zero_fine e = ground arith

module _ {K C : Type 0} {A : C → Type 0} (Own : K → (c : C) → A c → K → Type 0)
    (F : (c : C) → A c → Type 0) where
  abbrev pub Succeeds :
      (t : ℕ) (e : Kernel K) (c : GuardCall C) → GuardAnswer A c → Kernel K → Type 0
  Succeeds t e c a e' = Happens Own t e c a e' × IsFine F c a

  -- The next call of some process can succeed, or the kernel can take a lock away that its process
  -- asks to change.
  abbrev pub PoolGoesOn : Pool K A → Type 0
  PoolGoesOn x =
      ((t : ℕ) × (e : Kernel K) × (p : GuardProgram A) × Advances (Succeeds t x.kernel)
          (x.program t) e p)
      ⊎ ((t : ℕ) × Converts (x.program t) × (x.kernel.lock t ≡ shared))

module _ {K C W : Type 0} {A : C → Type 0} {Own : K → (c : C) → A c → K → Type 0}
    (i : Initialiser A) (sys : Sys W) (F : (c : C) → A c → Type 0)
    (answers : (k : K) (c : C) → (a : A c) × (k' : K) × Own k c a k' × F c a) (x : Pool K A)
    (t : ℕ) where
  by_program :
      (p : GuardProgram A)
      → x.program t ≡ p
      → (e : Kernel K) (p' : GuardProgram A) → Advances (Succeeds Own F t x.kernel) p e p'
      → PoolGoesOn Own F x
  by_program p is e p' a =
      inl (t, e, p', subst (λ z. Advances (Succeeds Own F t x.kernel) z e p') (sym is) a)

  own_goes_on :
      (c : C) (g : A c → GuardProgram A) → x.program t ≡ calls (own_call c) g → PoolGoesOn Own F x
  own_goes_on c g at =
      let (a, k, h, f) = answers x.kernel.own c in by_program _ at _ _ (a, ((k, h, refl), f), refl)

  leaving_goes_on :
      (fd : ℤ) (r : Outcome (Unit {0})) → x.program t ≡ leaves fd r → PoolGoesOn Own F x
  leaving_goes_on fd r at = by_program _ at _ _ (zero_reply, (refl, zero_fine), refl)

  phase_goes_on :
      (q : Phase A)
      → ((u : ℕ) → x.kernel.lock u ≡ free) × (has_ended (x.program t) ≡ false) ⊎ (has_lock q ≡ true)
      → x.program t ≡ program_of i sys q
      → x.kernel.lock t ≡ lock_of q
      → PoolGoesOn Own F x
  unfolding guarded_program
  phase_goes_on opening h at l = by_program _ at _ _ (zero_reply, (refl, zero_fine), refl)
  phase_goes_on (asking fd) (inl (none, n)) at l =
      by_program _ at _ _
        (zero_reply, (inr (zero_fine, λ u e. ground (arith, none u), refl), zero_fine), refl)
  phase_goes_on (asking fd) (inr h) at l = cc
  phase_goes_on (waiting fd) (inl (none, n)) at l =
      by_program _ at _ _ (zero_reply, (inr (zero_fine, none, refl), zero_fine), refl)
  phase_goes_on (waiting fd) (inr h) at l = cc
  phase_goes_on (first fd) h at l = own_goes_on _ _ at
  phase_goes_on (second fd) h at l = own_goes_on _ _ at
  phase_goes_on (converting fd) h at l = inr (t, subst Converts (sym at) tt, l)
  phase_goes_on (making fd (calls c f)) h at l = own_goes_on _ _ at
  phase_goes_on (making fd (ends r)) h at l =
      by_program _ at _ _ (zero_reply, (inr (zero_fine, refl), zero_fine), refl)
  phase_goes_on (leaving_shared fd r) h at l = leaving_goes_on fd r at
  phase_goes_on (leaving fd r) h at l = leaving_goes_on fd r at
  phase_goes_on (out r) (inl (none, n)) at l = absurd (ground (arith, n, ap has_ended at))
  phase_goes_on (out r) (inr h) at l = cc

module _ {K C W : Type 0} {A : C → Type 0} {Own : K → (c : C) → A c → K → Type 0}
    {i : Initialiser A} {k₀ : K} (d : Discipline Own i k₀) (sys : Sys W) where
  -- Where those that have begun have no lock, nobody has one.
  free_lem :
      (x : Pool K A) (n : ℕ) (c : Phases d sys x)
      → ((u : ℕ) → n ≤ u → is_beginning (x.program u) ≡ true)
      → ((u : ℕ) → u < n → has_lock (c.phase u) ≡ false)
      → (u : ℕ) → x.kernel.lock u ≡ free
  free_lem x n c quiet none u = elim (Bool-cases (ltb u n)) [
    | inl e ↦ c.holds u ∙ no_lock (c.phase u) (none u (ground arith))
    | inr e ↦
        c.holds u
        ∙ no_lock (c.phase u) (
            beginning_lem i sys (c.phase u)
              (ap is_beginning (sym (c.runs u)) ∙ quiet u (ground arith)))
  ]

  -- The processes do not block one another on the lock file, although the shared lock is never
  -- unlocked: in a state that they reach, where all from some number on have not begun, and some
  -- process is not out of the initialiser, and where its own calls can always succeed, the next call
  -- of some process can succeed, or the kernel can take the shared lock of a process away that asks
  -- for the exclusive one.
  pub guarded-PoolGoesOn :
      (F : (c : C) → A c → Type 0)
      → ((k : K) (c : C) → (a : A c) × (k' : K) × Own k c a k' × F c a)
      → (x : Pool K A) (n t : ℕ) → ReachablePool Own sys i k₀ x
      → ((u : ℕ) → n ≤ u → is_beginning (x.program u) ≡ true)
      → has_ended (x.program t) ≡ false
      → PoolGoesOn Own F x
  guarded-PoolGoesOn F answers x n t reachable quiet runs =
      let c = pool_phases d sys x reachable in
      elim (some_holder n c.phase) [
        | inl (u, h) ↦ phase_goes_on i sys F answers x u (c.phase u) (inr h) (c.runs u) (c.holds u)
        | inr none ↦
            phase_goes_on i sys F answers x t (c.phase t) (inl (free_lem x n c quiet none, runs))
              (c.runs t) (c.holds t)
      ]
