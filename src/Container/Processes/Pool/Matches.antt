-- ===== src/Container/Processes/Pool/Matches.antt =====
-- When a pool of processes that run the program of `Initialize` matches the machine of
-- Container/Processes (sex/container.cpp).
use sex.Common.{ℕ, ◌==◌, if◌then◌else◌, ◌≡◌, inl, inr, refl, ap, ◌∙◌, arith, Bool-cases}
use sex.Common.Int.{ℤ}
use sex.Runtime.{Outcome, done, Sys}
use sex.Calls.{ends}
use sex.Flock.Laws.{Mode, exclusive}
use sex.Flock.Guarded.{guarded_program}
use sex.Container.Program.{
  Program, sbox_initialiser, leaves, leaves_exclusive, creating_program, second_program,
  exclusive_program, first_program, shared_program,
}
use sex.Container.Processes.{
  Place, opening, asking_shared, first_check, converting, asking_exclusive, second_check, creating,
  closing, unwinding, returned, threw, lock_of, Machine, goes,
}
use sex.Container.Processes.Pool.{Kernel, locked, settled, Pool, goes_on_with}

-- The guard's destructor with the lock that is left.
abbrev pub leaving : Mode → ℤ → Outcome (Unit {0}) → Program
leaving exclusive fd r = leaves_exclusive fd r
leaving _ fd r = leaves fd r

-- The call did not return.
abbrev pub Failed : Outcome (Unit {0}) → Type 0
Failed (done _) = ⊥
Failed _ = Unit

module _ {W : Type 0} (sys : Sys W) where
  -- What a process has yet to run at a place, with its descriptor, and the outcome where it fails.
  abbrev pub program_at : Place → ℤ → Outcome (Unit {0}) → Program
  program_at opening fd r = guarded_program sys sbox_initialiser
  program_at asking_shared fd r = shared_program sys fd
  program_at first_check fd r = first_program sys fd
  program_at converting fd r = exclusive_program sys fd
  program_at asking_exclusive fd r = exclusive_program sys fd
  program_at second_check fd r = second_program fd
  program_at creating fd r = creating_program fd
  program_at (closing m) fd r = leaving m fd (done tt)
  program_at (unwinding m) fd r = leaving m fd r
  program_at returned fd r = ends (done tt)
  program_at threw fd r = ends r

  -- A process of the pool is at a place of the machine, with the lock of that place.
  abbrev pub IsAt : Program → Mode → Place → Type 0
  IsAt p m q =
      (fd : ℤ) × (r : Outcome (Unit {0})) × Failed r × (p ≡ program_at q fd r) × (m ≡ lock_of q)

  pub record Matches (x : Pool) (s : Machine) : Type 0 where
    pub same_present : x.kernel.own.present ≡ s.present
    pub same_created : x.kernel.own.created ≡ s.created
    pub stands : (t : ℕ) → IsAt (x.program t) (x.kernel.lock t) (s.place t)

  -- The machine's step to a place, matched by a kernel that changes the lock of one process at
  -- most.
  pub arrives :
      (x : Pool) (s s' : Machine) (t : ℕ) (q : Place) (fd : ℤ) (r : Outcome (Unit {0}))
      (e' : Kernel) (p : Program)
      → Matches x s
      → Failed r
      → p ≡ program_at q fd r
      → (settled t p e').own.present ≡ s'.present
      → (settled t p e').own.created ≡ s'.created
      → ((u : ℕ) → (settled t p e').lock u ≡ (if t == u then lock_of q else x.kernel.lock u))
      → ((u : ℕ) → s'.place u ≡ (if t == u then q else s.place u))
      → Matches (goes_on_with x t e' p) s'
  arrives x s s' t q fd r e' p c f is_at present created locks places = record {
    same_present = present;
    same_created = created;
    stands = λ u. elim (Bool-cases (t == u)) [
      | inl here ↦ rw (places u, locks u, here) (fd, r, f, is_at, refl)
      | inr other ↦ rw (places u, locks u, other) (c.stands u)
    ];
  }

  -- The kernel is as it was.
  pub arrives_kept :
      (x : Pool) (s : Machine) (t : ℕ) (q : Place) (fd : ℤ) (r : Outcome (Unit {0})) (e' : Kernel)
      (p : Program)
      → Matches x s
      → Failed r
      → p ≡ program_at q fd r
      → settled t p e' ≡ x.kernel
      → lock_of (s.place t) ≡ lock_of q
      → Matches (goes_on_with x t e' p) (goes s t q)
  arrives_kept x s t q fd r e' p c f is_at same l =
      arrives x s (goes s t q) t q fd r e' p c f is_at
        (ap (λ (e : Kernel). e.own.present) same ∙ c.same_present)
        (ap (λ (e : Kernel). e.own.created) same ∙ c.same_created)
        (λ u. ap (λ (e : Kernel). e.lock u) same ∙ ground (arith, (c.stands t).4, l)) (λ u. refl)

  -- The kernel gives or takes the lock of the new place.
  pub arrives_locked :
      (x : Pool) (s : Machine) (t : ℕ) (q : Place) (fd : ℤ) (r : Outcome (Unit {0})) (e' : Kernel)
      (p : Program)
      → Matches x s
      → Failed r
      → p ≡ program_at q fd r
      → settled t p e' ≡ locked x.kernel t (lock_of q)
      → Matches (goes_on_with x t e' p) (goes s t q)
  arrives_locked x s t q fd r e' p c f is_at same =
      arrives x s (goes s t q) t q fd r e' p c f is_at
        (ap (λ (e : Kernel). e.own.present) same ∙ c.same_present)
        (ap (λ (e : Kernel). e.own.created) same ∙ c.same_created)
        (λ u. ap (λ (e : Kernel). e.lock u) same) (λ u. refl)
