-- ===== src/Flock/Guarded/Pool/Moves.antt =====
-- The phases of a pool after one process has gone on, and its lock where it has ended
-- (sex/util/flock.hpp).
use mathlib.Core.Path.{fun_ext}
use sex.Common.{
  ℕ, true, false, ◌==◌, if◌then◌else◌, ◌≡◌, ◌≢◌, ◌⊎◌, inl, inr, refl, ap, sym, subst, ◌∙◌, arith,
  Bool-cases,
}
use sex.Common.Int.{ℤ}
use sex.Runtime.{Outcome, done, thrown, terminated, exited, Sys}
use sex.Result.{Result}
use sex.Calls.{CallProgram, ends, calls}
use sex.Flock.Laws.{free, shared, exclusive}
use sex.Flock.Guarded.{Initialiser, then_leaves}
use sex.Flock.Guarded.Pool.{Kernel, locked, Pool, settled}
use sex.Flock.Guarded.Pool.Phases.{Phase, lock_of, program_of}
use sex.Flock.Guarded.Pool.Discipline.{Discipline, Knows, Knows-kept, Phases}

module _ {K : Type 0} (e : Kernel K) (t : ℕ) where
  locked_twice : locked (locked e t free) t free ≡ locked e t free
  locked_twice = λ i. record e {
    lock =
        fun_ext {f = (locked (locked e t free) t free).lock} {g = (locked e t free).lock}
          (λ u. ground arith) i;
  }

  module _ {C : Type 0} (A : C → Type 0) where
    pub ended :
        (r : Outcome (Unit {0})) (e' : Kernel K)
        → e' ≡ locked e t free
        → settled {A = A} t (ends r) e' ≡ locked e t free
    ended terminated e' h = ap (λ z. locked z t free) h ∙ locked_twice
    ended (done _) e' h = h
    ended (thrown _) e' h = h
    ended (exited _) e' h = h

  module _ {C : Type 0} {A : C → Type 0} where
    pub settled_making :
        (fd : ℤ) (p : CallProgram C A (Result (Unit {0}))) (e' : Kernel K)
        → settled t (then_leaves fd p) e' ≡ e'
    settled_making fd (ends r) e' = refl
    settled_making fd (calls c f) e' = refl

module _ {K C W : Type 0} {A : C → Type 0} {Own : K → (c : C) → A c → K → Type 0}
    {i : Initialiser A} {k₀ : K} (d : Discipline Own i k₀) (sys : Sys W) (x : Pool K A)
    (c : Phases d sys x) (t : ℕ) where
  open d use {Quiet}
  open c use {phase, runs, holds, knows, apart, resource}

  module _ (q : Phase A) (y : Pool K A)
      (next : (u : ℕ) → y.program u ≡ (if t == u then program_of i sys q else x.program u)) where
    abbrev after : Kernel K
    after = y.kernel

    -- In general.
    moves :
        ((u : ℕ) → after.lock u ≡ (if t == u then lock_of q else x.kernel.lock u))
        → Knows d after.own q
        → ((u : ℕ) → (t == u) ≡ false → Knows d after.own (phase u))
        → ((u : ℕ) → (t == u) ≡ false → (lock_of q ≢ exclusive) ⊎ (x.kernel.lock u ≡ free))
        → ((u : ℕ) → (t == u) ≡ false → (lock_of q ≡ free) ⊎ (x.kernel.lock u ≢ exclusive))
        → Quiet after.own ⊎ ((u : ℕ) × (after.lock u ≡ exclusive))
        → Phases d sys y
    moves locks own others alone beside quiet = record {
      phase = λ u. if t == u then q else phase u;
      runs = λ u. elim (Bool-cases (t == u)) [
        | inl s ↦ next u ∙ rw s refl
        | inr o ↦ next u ∙ rw o (runs u)
      ];
      holds = λ u. elim (Bool-cases (t == u)) [
        | inl s ↦ locks u ∙ rw s refl
        | inr o ↦ locks u ∙ rw o (holds u)
      ];
      knows = λ u. elim (Bool-cases (t == u)) [ inl s ↦ rw s own | inr o ↦ rw o (others u o) ];
      apart = λ v u h. elim (Bool-cases (t == v)) [
        | inl s ↦ elim (Bool-cases (t == u)) [
          | inl s' ↦ inl (ground arith)
          | inr o ↦ inr (locks u ∙ rw o (ground (arith, alone u o, locks v, h, s)))
        ]
        | inr o ↦ elim (Bool-cases (t == u)) [
          | inl s ↦ inr (locks u ∙ rw s (ground (arith, beside v o, locks v, h, o)))
          | inr o' ↦ ground (arith, apart v u, locks v, locks u, h, o, o')
        ]
      ];
      resource = quiet;
    }

    -- Another process where this one has the exclusive lock, and where another has it.
    others_free : (u : ℕ) → (t == u) ≡ false → x.kernel.lock t ≡ exclusive → x.kernel.lock u ≡ free
    others_free u o h = ground (arith, apart t u h)

    other_has : (u : ℕ) → (t == u) ≡ false → x.kernel.lock u ≡ exclusive → x.kernel.lock t ≡ free
    other_has u o h = ground (arith, apart u t h)

    here : (u : ℕ) → (t == u) ≡ true → t ≡ u
    here u s = ground arith

    -- The process's lock is as it was.
    keeps_lock :
        after.lock ≡ x.kernel.lock
        → lock_of q ≡ lock_of (phase t)
        → Knows d after.own q
        → ((u : ℕ) → (t == u) ≡ false → Knows d after.own (phase u))
        → Quiet after.own ⊎ ((u : ℕ) × (after.lock u ≡ exclusive))
        → Phases d sys y
    keeps_lock same l own others quiet =
        let mine : x.kernel.lock t ≡ lock_of q = holds t ∙ sym l in
        moves
          (λ u. ap (λ z. z u) same ∙ elim (Bool-cases (t == u)) [
            | inl s ↦ rw s (ap x.kernel.lock (sym (here u s)) ∙ mine)
            | inr o ↦ rw o refl
          ])
          own others (λ u o. ground (arith, mine, others_free u o))
          (λ u o. ground (arith, mine, other_has u o)) quiet

    -- Nothing has changed.
    pub stays :
        after ≡ x.kernel → lock_of q ≡ lock_of (phase t) → Knows d x.kernel.own q → Phases d sys y
    stays same l own =
        keeps_lock (ap (λ z. z.lock) same) l (subst (λ z. Knows d z.own q) (sym same) own)
          (λ u o. subst (λ z. Knows d z.own (phase u)) (sym same) (knows u))
          (subst (λ (z : Kernel K). Quiet z.own ⊎ ((u : ℕ) × (z.lock u ≡ exclusive))) (sym same)
            resource)

    -- A call of the making.
    pub makes_on :
        (k : K)
        → after ≡ record x.kernel { own = k }
        → lock_of q ≡ exclusive
        → x.kernel.lock t ≡ exclusive
        → Knows d k q
        → (d.Finished x.kernel.own → d.Finished k)
        → Phases d sys y
    makes_on k same l has own f =
        keeps_lock (ap (λ z. z.lock) same) (l ∙ sym has ∙ holds t)
          (subst (λ z. Knows d z.own q) (sym same) own)
          (λ u o.
            subst (λ z. Knows d z.own (phase u)) (sym same)
              (Knows-kept d x.kernel.own k (phase u) (sym (holds u) ∙ others_free u o has) f
                (knows u)))
          (inr (t, ap (λ (z : Kernel K). z.lock t) same ∙ has))

    -- The process's lock is that of its new phase.
    relocks :
        after ≡ locked x.kernel t (lock_of q)
        → Knows d x.kernel.own q
        → ((u : ℕ) → (t == u) ≡ false → (lock_of q ≢ exclusive) ⊎ (x.kernel.lock u ≡ free))
        → ((u : ℕ) → (t == u) ≡ false → (lock_of q ≡ free) ⊎ (x.kernel.lock u ≢ exclusive))
        → Quiet x.kernel.own ⊎ ((u : ℕ) × ((locked x.kernel t (lock_of q)).lock u ≡ exclusive))
        → Phases d sys y
    relocks same own alone beside quiet =
        moves (λ u. ap (λ (z : Kernel K). z.lock u) same)
          (subst (λ z. Knows d z.own q) (sym same) own)
          (λ u o. subst (λ z. Knows d z.own (phase u)) (sym same) (knows u)) alone beside
          (subst (λ (z : Kernel K). Quiet z.own ⊎ ((u : ℕ) × (z.lock u ≡ exclusive))) (sym same)
            quiet)

    pub releases :
        after ≡ locked x.kernel t free
        → lock_of q ≡ free
        → Knows d x.kernel.own q
        → Quiet x.kernel.own ⊎ (x.kernel.lock t ≢ exclusive)
        → Phases d sys y
    releases same l own quiet =
        relocks (same ∙ ap (λ m. locked x.kernel t m) (sym l)) own
          (λ u o. inl (λ h. ground (arith, l, h))) (λ u o. inl l)
          (elim quiet [
            | inl k ↦ inl k
            | inr n ↦ elim resource [
              | inl k ↦ inl k
              | inr (u, h) ↦ inr (
                u,
                elim (Bool-cases (t == u)) [
                  | inl s ↦ absurd (n (ap x.kernel.lock (here u s) ∙ h))
                  | inr o ↦ rw o h
                ],
              )
            ]
          ])

    quiet_now : ((u : ℕ) → x.kernel.lock u ≢ exclusive) → Quiet x.kernel.own
    quiet_now none = elim resource [ inl k ↦ k | inr (u, h) ↦ absurd (none u h) ]

    pub gets_shared :
        after ≡ locked x.kernel t shared
        → lock_of q ≡ shared
        → ((u : ℕ) → x.kernel.lock u ≢ exclusive)
        → Knows d x.kernel.own q
        → Phases d sys y
    gets_shared same l none own =
        relocks (same ∙ ap (λ m. locked x.kernel t m) (sym l)) own
          (λ u o. inl (λ h. ground (arith, l, h))) (λ u o. inr (none u)) (inl (quiet_now none))

    pub gets_exclusive :
        after ≡ locked x.kernel t exclusive
        → lock_of q ≡ exclusive
        → ((u : ℕ) → x.kernel.lock u ≡ free)
        → (Quiet x.kernel.own → Knows d x.kernel.own q)
        → Phases d sys y
    gets_exclusive same l none own =
        relocks (same ∙ ap (λ m. locked x.kernel t m) (sym l))
          (own (quiet_now (λ u h. ground (arith, none u, h)))) (λ u o. inr (none u))
          (λ u o. inr (λ h. ground (arith, none u, h))) (inr (t, ground (arith, l)))
