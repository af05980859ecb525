-- ===== src/Container/Processes/Pool/Simulates.antt =====
-- Every run of the processes that run the program of `Initialize`, a call at a time, is a run of
-- the machine of Container/Processes (sex/container.cpp).
use sex.Common.{ℕ, Bool, false, ◌==◌, ◌≡◌, inl, inr, refl, sym, ap, subst, ◌∙◌, arith, Bool-cases}
use sex.Common.Int.{ℤ, pos}
use sex.Runtime.{Outcome, done, terminated, Sys}
use sex.Calls.{Advances}
use sex.Flock.Laws.{Mode, free, shared, exclusive}
use sex.Flock.Guarded.{guarded_program}
use sex.Container.Program.{Program}
use sex.Container.Processes.{
  Place, opening, asking_shared, first_check, converting, asking_exclusive, second_check, creating,
  closing, unwinding, returned, threw, lock_of, Machine, goes, Step, gives_up_shared, unlocks,
  unlocks_throwing, closes, close_fails, closes_throwing, first_machine, Reachable, start, after,
}
use sex.Container.Processes.Pool.{
  Kernel, locked, Happens, Converts, Pool, PoolStep, advances, gives_up, ReachablePool, pool_start,
  pool_after,
}
use sex.Container.Processes.Pool.Matches.{leaving, Failed, program_at, Matches}
use sex.Container.Processes.Pool.Follows.{
  Follows, opening-Follows, shared-Follows, first-Follows, converting-Follows, exclusive-Follows,
  second-Follows, creating-Follows,
}
use sex.Container.Processes.Pool.Leaves.{leaves-Follows, leaves_exclusive-Follows}
use sex.Container.Processes.Together.{Consistent, reachable-Consistent}

module _ {W : Type 0} (sys : Sys W) (there : Bool) (x : Pool) (s : Machine) (c : Matches sys x s)
    (k : Consistent there s) (t : ℕ) (e' : Kernel) (p : Program) where
  closing-Follows :
      (m : Mode) (fd : ℤ)
      → s.place t ≡ closing m
      → Advances (Happens t x.kernel) (leaving m fd (done tt)) e' p
      → Follows sys x s t e' p
  closing-Follows exclusive fd at a =
      leaves_exclusive-Follows sys x s t e' p c (closing free) fd (done tt) terminated
        (unlocks t exclusive at) (close_fails t exclusive at) refl tt refl a
  closing-Follows shared fd at a =
      leaves-Follows sys x s t e' p c returned fd (done tt) terminated (closes t shared at)
        (close_fails t shared at) refl tt refl a
  closing-Follows free fd at a =
      leaves-Follows sys x s t e' p c returned fd (done tt) terminated (closes t free at)
        (close_fails t free at) refl tt refl a

  unwinding-Follows :
      (m : Mode) (fd : ℤ) (r : Outcome (Unit {0}))
      → s.place t ≡ unwinding m
      → Failed r
      → Advances (Happens t x.kernel) (leaving m fd r) e' p
      → Follows sys x s t e' p
  unwinding-Follows exclusive fd r at f a =
      leaves_exclusive-Follows sys x s t e' p c (unwinding free) fd r r
        (unlocks_throwing t exclusive at) (closes_throwing t exclusive at) refl f refl a
  unwinding-Follows shared fd r at f a =
      leaves-Follows sys x s t e' p c threw fd r r (closes_throwing t shared at)
        (closes_throwing t shared at) refl f refl a
  unwinding-Follows free fd r at f a =
      leaves-Follows sys x s t e' p c threw fd r r (closes_throwing t free at)
        (closes_throwing t free at) refl f refl a

  none_there : s.place t ≡ creating → s.present ≡ false
  none_there at = ground (arith, k.knows_creating t)

  place-Follows :
      (q : Place) (fd : ℤ) (r : Outcome (Unit {0}))
      → s.place t ≡ q
      → Failed r
      → Advances (Happens t x.kernel) (program_at sys q fd r) e' p
      → Follows sys x s t e' p
  place-Follows opening fd r at f a = opening-Follows sys x s t e' p c at a
  place-Follows asking_shared fd r at f a = shared-Follows sys x s t e' p c fd at a
  place-Follows first_check fd r at f a = first-Follows sys x s t e' p c fd at a
  place-Follows converting fd r at f a = converting-Follows sys x s t e' p c fd at a
  place-Follows asking_exclusive fd r at f a = exclusive-Follows sys x s t e' p c fd at a
  place-Follows second_check fd r at f a = second-Follows sys x s t e' p c fd at a
  place-Follows creating fd r at f a = creating-Follows sys x s t e' p c fd at (none_there at) a
  place-Follows (closing m) fd r at f a = closing-Follows m fd at a
  place-Follows (unwinding m) fd r at f a = unwinding-Follows m fd r at f a
  place-Follows returned fd r at f a = elim a [ ]
  place-Follows threw fd r at f a = elim a [ ]

  follows : Advances (Happens t x.kernel) (x.program t) e' p → Follows sys x s t e' p
  follows a =
      let (fd, r, f, is_at, l) = c.stands t in
      place-Follows (s.place t) fd r refl f
        (subst (λ z. Advances (Happens t x.kernel) z e' p) is_at a)

module _ {W : Type 0} (sys : Sys W) (there : Bool) where
  Converts-place :
      (q : Place) (fd : ℤ) (r : Outcome (Unit {0}))
      → Converts (program_at sys q fd r)
      → shared ≡ lock_of q
      → q ≡ converting
  unfolding guarded_program
  Converts-place converting fd r a l = refl
  Converts-place asking_exclusive fd r a l = absurd (ground arith)
  Converts-place opening fd r a l = elim a [ ]
  Converts-place asking_shared fd r a l = elim a [ ]
  Converts-place first_check fd r a l = elim a [ ]
  Converts-place second_check fd r a l = elim a [ ]
  Converts-place creating fd r a l = elim a [ ]
  Converts-place (closing exclusive) fd r a l = elim a [ ]
  Converts-place (closing shared) fd r a l = elim a [ ]
  Converts-place (closing free) fd r a l = elim a [ ]
  Converts-place (unwinding exclusive) fd r a l = elim a [ ]
  Converts-place (unwinding shared) fd r a l = elim a [ ]
  Converts-place (unwinding free) fd r a l = elim a [ ]
  Converts-place returned fd r a l = elim a [ ]
  Converts-place threw fd r a l = elim a [ ]

  gives_up_follows :
      (x : Pool) (s : Machine) (t : ℕ)
      → Matches sys x s
      → Converts (x.program t)
      → x.kernel.lock t ≡ shared
      → (s' : Machine) × Step s s' × Matches sys (record x { kernel = locked x.kernel t free }) s'
  gives_up_follows x s t c a l =
      let (fd, r, f, is_at, m) = c.stands t in
      let here = Converts-place (s.place t) fd r (subst Converts is_at a) (sym l ∙ m) in
      (
        goes s t asking_exclusive,
        gives_up_shared t here,
        record {
          same_present = c.same_present;
          same_created = c.same_created;
          stands = λ u. elim (Bool-cases (t == u)) [
            | inl same ↦
                let e : t ≡ u = ground arith in
                rw same (
                  fd,
                  r,
                  f,
                  ap x.program (sym e) ∙ is_at ∙ ap (λ q. program_at sys q fd r) here,
                  refl,
                )
            | inr other ↦ rw other (c.stands u)
          ];
        },
      )

  step_follows :
      (x x' : Pool) (s : Machine)
      → Matches sys x s
      → Consistent there s
      → PoolStep x x'
      → (s' : Machine) × Step s s' × Matches sys x' s'
  step_follows x x' s c k (advances t e p a) = follows sys there x s c k t e p a
  step_follows x x' s c k (gives_up t a l) = gives_up_follows x s t c a l

  -- Any number of processes that run the program of `Initialize` a call at a time, in any order of
  -- their calls and with any answers that the kernel may give, are at each moment where the
  -- machine of Container/Processes can be: some reachable state of the machine has the same
  -- directory and the same count of its making, and for each process a place whose rest of the
  -- program and whose lock are those of the process.
  pub pool_refines :
      (x : Pool) → ReachablePool sys there x → (s : Machine) × Reachable there s × Matches sys x s
  pool_refines x pool_start = (
    first_machine there,
    start,
    record {
      same_present = refl;
      same_created = refl;
      stands = λ t. (pos 0, terminated, tt, refl, refl);
    },
  )
  pool_refines x' (pool_after x _ r step) =
      let (s, reachable, c) = pool_refines x r in
      let (s', machine_step, c') =
        step_follows x x' s c (reachable-Consistent there s reachable) step in
      (s', after s s' reachable machine_step, c')
