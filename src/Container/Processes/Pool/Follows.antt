-- ===== src/Container/Processes/Pool/Follows.antt =====
-- The machine of Container/Processes follows each call of the program of `Initialize`
-- (sex/container.cpp), by the place where the process is.
use sex.Common.{
  ℕ, suc, true, false, ◌≡◌, ◌≢◌, inl, inr, refl, sym, ap, subst, ◌∙◌, arith, Bool-cases,
}
use sex.Common.Int.{ℤ, pos, minus_one, ◌==ℤ◌, ==ℤ_ne}
use sex.Runtime.{Outcome, done, thrown, terminated, Sys, filesystem_error}
use sex.Calls.{Advances}
use sex.Flock.Laws.{free, shared, exclusive}
use sex.Flock.Guarded.{guarded_program}
use sex.Container.Program.{
  Program, sbox_initialiser, leaves_exclusive, creating_program, second_program, exclusive_program,
  first_program, shared_program, open_failure, flock_failure,
}
use sex.Container.Processes.{
  Place, opening, asking_shared, first_check, converting, asking_exclusive, second_check, creating,
  closing, unwinding, threw, lock_of, makes_call, Machine, goes, Step, opens, open_fails,
  locks_shared, finds, misses, locks_exclusive, finds_now, misses_now, creates, call_fails,
}
use sex.Container.Processes.Pool.{
  Kernel, locked, with_directory, Sbox, Happens, settled, Pool, goes_on_with,
}
use sex.Container.Processes.Pool.Matches.{
  leaving, Failed, program_at, Matches, arrives, arrives_kept, arrives_locked,
}

module _ {W : Type 0} (sys : Sys W) where
  -- The machine's step that matches one of process `t`.
  abbrev pub Follows : Pool → Machine → ℕ → Kernel → Program → Type 0
  Follows x s t e' p = (s' : Machine) × Step s s' × Matches sys (goes_on_with x t e' p) s'

  module _ (x : Pool) (s : Machine) (t : ℕ) (e' : Kernel) (p : Program) (c : Matches sys x s) where
    kept :
        (q₀ q : Place) (fd : ℤ) (r : Outcome (Unit {0}))
        → s.place t ≡ q₀
        → Step s (goes s t q)
        → Failed r
        → p ≡ program_at sys q fd r
        → settled t (program_at sys q fd r) e' ≡ x.kernel
        → lock_of q₀ ≡ lock_of q
        → Follows x s t e' p
    kept q₀ q fd r here step f is_at same l = (
      goes s t q,
      step,
      arrives_kept sys x s t q fd r e' p c f is_at (ap (λ z. settled t z e') is_at ∙ same)
          (ap lock_of here ∙ l),
    )

    pub locked_now :
        (q : Place) (fd : ℤ) (r : Outcome (Unit {0}))
        → Step s (goes s t q)
        → Failed r
        → p ≡ program_at sys q fd r
        → settled t (program_at sys q fd r) e' ≡ locked x.kernel t (lock_of q)
        → Follows x s t e' p
    locked_now q fd r step f is_at same = (
      goes s t q,
      step,
      arrives_locked sys x s t q fd r e' p c f is_at (ap (λ z. settled t z e') is_at ∙ same),
    )

    -- A call before the block is left, which fails, and the destructor with the lock that is held.
    fails :
        (q₀ : Place) (fd : ℤ) (r : Outcome (Unit {0}))
        → s.place t ≡ q₀
        → makes_call q₀ ≡ true
        → Failed r
        → p ≡ leaving (lock_of q₀) fd r
        → settled t (leaving (lock_of q₀) fd r) e' ≡ x.kernel
        → Follows x s t e' p
    fails q₀ fd r here m f is_at same =
        kept q₀ (unwinding (lock_of q₀)) fd r here
          (subst (λ q. Step s (goes s t (unwinding (lock_of q)))) here
            (call_fails t (ap makes_call here ∙ m)))
          f is_at same refl

    pub opening-Follows :
        s.place t ≡ opening
        → Advances (Happens t x.kernel) (guarded_program sys sbox_initialiser) e' p
        → Follows x s t e' p
    unfolding guarded_program
    opening-Follows at (a, h, q) = elim (Bool-cases (a.value ==ℤ minus_one)) [
      | inl e ↦
          kept opening threw (pos 0) (thrown (open_failure sys a)) at (open_fails t at) tt
            (q ∙ rw e refl) h refl
      | inr e ↦
          kept opening asking_shared a.value terminated at (opens t at) tt (q ∙ rw e refl) h refl
    ]

    -- No process of the machine has the exclusive lock, or any, where none of the pool has.
    none_exclusive :
        ((u : ℕ) → x.kernel.lock u ≢ exclusive) → (u : ℕ) → lock_of (s.place u) ≢ exclusive
    none_exclusive none u h = none u ((c.stands u).4 ∙ h)

    none_locked : ((u : ℕ) → x.kernel.lock u ≡ free) → (u : ℕ) → lock_of (s.place u) ≡ free
    none_locked none u = sym (c.stands u).4 ∙ none u

    pub shared-Follows :
        (fd : ℤ)
        → s.place t ≡ asking_shared
        → Advances (Happens t x.kernel) (shared_program sys fd) e' p
        → Follows x s t e' p
    shared-Follows fd at (a, inl (e, h), q) =
        fails asking_shared fd (thrown (flock_failure sys a)) at refl tt (q ∙ rw e refl) h
    shared-Follows fd at (a, inr (e, none, h), q) =
        locked_now first_check fd terminated (locks_shared t at (none_exclusive none)) tt
          (q ∙ rw (==ℤ_ne _ _ e) refl) h

    -- A call of std::filesystem that has kept what it works on.
    kernel_kept : (k : Sbox) → k ≡ x.kernel.own → e' ≡ record x.kernel { own = k } → e' ≡ x.kernel
    kernel_kept k o h = h ∙ ap (λ z. record x.kernel { own = z }) o

    pub first-Follows :
        (fd : ℤ)
        → s.place t ≡ first_check
        → Advances (Happens t x.kernel) (first_program sys fd) e' p
        → Follows x s t e' p
    first-Follows fd at (a, (z, inl (e, o), h), q) =
        fails first_check fd (thrown (filesystem_error a.1)) at refl tt (q ∙ ground arith)
          (kernel_kept z o h)
    first-Follows fd at (a, (z, inr (e, there, o), h), q) = elim (Bool-cases s.present) [
      | inl i ↦
          kept first_check (closing shared) fd terminated at (finds t at i) tt
            (q ∙ ground (arith, c.same_present)) (kernel_kept z o h) refl
      | inr i ↦
          kept first_check converting fd terminated at (misses t at i) tt
            (q ∙ ground (arith, c.same_present)) (kernel_kept z o h) refl
    ]

    pub converting-Follows :
        (fd : ℤ)
        → s.place t ≡ converting
        → Advances (Happens t x.kernel) (exclusive_program sys fd) e' p
        → Follows x s t e' p
    converting-Follows fd at (a, inl (e, h), q) =
        fails converting fd (thrown (flock_failure sys a)) at refl tt (q ∙ rw e refl) h
    converting-Follows fd at (a, inr (e, none, h), q) = absurd (ground (arith, none_locked none t))

    pub exclusive-Follows :
        (fd : ℤ)
        → s.place t ≡ asking_exclusive
        → Advances (Happens t x.kernel) (exclusive_program sys fd) e' p
        → Follows x s t e' p
    exclusive-Follows fd at (a, inl (e, h), q) =
        fails asking_exclusive fd (thrown (flock_failure sys a)) at refl tt (q ∙ rw e refl) h
    exclusive-Follows fd at (a, inr (e, none, h), q) =
        locked_now second_check fd terminated (locks_exclusive t at (none_locked none)) tt
          (q ∙ rw (==ℤ_ne _ _ e) refl) h

    pub second-Follows :
        (fd : ℤ)
        → s.place t ≡ second_check
        → Advances (Happens t x.kernel) (second_program fd) e' p
        → Follows x s t e' p
    second-Follows fd at (a, (z, inl (e, o), h), q) =
        fails second_check fd (thrown (filesystem_error a.1)) at refl tt (q ∙ ground arith)
          (kernel_kept z o h)
    second-Follows fd at (a, (z, inr (e, there, o), h), q) = elim (Bool-cases s.present) [
      | inl i ↦
          kept second_check (closing exclusive) fd terminated at (finds_now t at i) tt
            (q ∙ ground (arith, c.same_present)) (kernel_kept z o h) refl
      | inr i ↦
          kept second_check creating fd terminated at (misses_now t at i) tt
            (q ∙ ground (arith, c.same_present)) (kernel_kept z o h) refl
    ]

    pub creating-Follows :
        (fd : ℤ)
        → s.place t ≡ creating
        → s.present ≡ false
        → Advances (Happens t x.kernel) (creating_program fd) e' p
        → Follows x s t e' p
    creating-Follows fd at none (a, (z, inl (e, o), h), q) =
        fails creating fd (thrown (filesystem_error a.1)) at refl tt (q ∙ ground arith)
          (kernel_kept z o h)
    creating-Follows fd at none (a, (z, inr (e, o), h), q) =
        let is_at : p ≡ leaves_exclusive fd (done tt) = q ∙ ground arith in
        let same : settled t p e' ≡ record x.kernel { own = with_directory x.kernel.own } =
          ap (λ z. settled t z e') is_at ∙ h ∙ ap (λ z. record x.kernel { own = z }) o in
        let counted : (with_directory x.kernel.own).created ≡ suc s.created =
          ground (arith, c.same_present, c.same_created) in
        (
          _,
          creates t at,
          arrives sys x s _ t (closing exclusive) fd terminated e' p c tt is_at
              (ap (λ (z : Kernel). z.own.present) same)
              (ap (λ (z : Kernel). z.own.created) same ∙ counted)
              (λ u. ap (λ (z : Kernel). z.lock u) same ∙ ground (arith, (c.stands t).4))
              (λ u. refl),
        )
