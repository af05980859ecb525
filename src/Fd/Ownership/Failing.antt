-- ===== src/Fd/Ownership/Failing.antt =====
-- What a statement on holders does where its close reports an error (sex/util/fd_holder.cpp).
use sex.Common.{
  ℕ, some, ◌≡◌, ◌≢◌, ◌⊎◌, inl, inr, refl, ap, sym, ◌∙◌, subst, arith, Bool-cases, List, [], ◌∷◌,
}
use sex.Common.Int.{minus_one, ◌==ℤ◌, ==ℤ→eq, ==ℤ→ne}
use sex.Runtime.{◌>>◌, ◌>>=◌, Outcome, done, thrown, terminated, exited, Throws, Sys}
use sex.Fd.{FileDescriptor, FdHolder, reset, destroy}
use sex.Fd.Objects.{
  Objects, Op, constructs, constructs_empty, move_constructs, move_assigns, swaps, resets, releases,
  destroys, step, run, held,
}
use sex.Fd.Ownership.Defs.{Releasing, errorless, Owned, Allowed, closes}
use sex.Fd.Ownership.Steps.{live, on_object_lem, end_object_lem}

-- How a statement ends whose close reports an error.
abbrev pub StopsAs : Op → Outcome (Unit {0}) → Type 0
StopsAs (resets i d) r = Throws r
StopsAs (destroys i) r = r ≡ terminated
StopsAs _ r = ⊥

module _ {W : Type 0} (sys : Sys W) where
  -- The statement closes a descriptor, and close reports an error.
  abbrev pub CloseFails : Op → Objects × W → Type 0
  CloseFails op s =
      (closes op s.0 ≢ minus_one) × ((sys.close (closes op s.0) s.1).0.value ≡ minus_one)

  -- The first statement whose close reports an error is the last one that runs.
  abbrev pub StopsAt : List Op → Objects × W → Outcome (Unit {0}) → Type 0
  StopsAt [] s r = ⊥
  StopsAt (op ∷ ops) s r =
      CloseFails op s × StopsAs op r
      ⊎ ((step sys op s).0 ≡ done tt) × StopsAt ops (step sys op s).1 r

  stops_there :
      (op : Op) (ops : List Op) (s : Objects × W) (r : Outcome (Unit {0}))
      → (step sys op s).0 ≡ r
      → StopsAs op r
      → (run sys (op ∷ ops) s).0 ≡ r
  unfolding run
  stops_there op ops s (thrown e) q h = rw (q, ◌>>◌, ◌>>=◌) refl
  stops_there op ops s terminated q h = rw (q, ◌>>◌, ◌>>=◌) refl
  stops_there op ops s (exited n) q h = rw (q, ◌>>◌, ◌>>=◌) refl
  stops_there (resets i d) ops s (done _) q h = elim h [ ]
  stops_there (destroys i) ops s (done _) q h = absurd (ground (arith, h))
  stops_there (constructs i fd) ops s (done _) q h = elim h [ ]
  stops_there (constructs_empty i) ops s (done _) q h = elim h [ ]
  stops_there (move_constructs i j) ops s (done _) q h = elim h [ ]
  stops_there (move_assigns i j) ops s (done _) q h = elim h [ ]
  stops_there (swaps i j) ops s (done _) q h = elim h [ ]
  stops_there (releases i) ops s (done _) q h = elim h [ ]

  -- A program whose first statement stops ends as that statement does.
  pub stopped :
      (op : Op) (ops : List Op) (s : Objects × W)
      → StopsAs op (step sys op s).0
      → StopsAs op (run sys (op ∷ ops) s).0
  stopped op ops s h = rw (stops_there op ops s (step sys op s).0 refl h) h

  resets_cases :
      (i : ℕ) (d : FileDescriptor) (h : FdHolder) (objs : Objects) (w : W)
      → objs i ≡ some h
      → (step sys (resets i d) (objs, w) ≡ step (errorless sys) (resets i d) (objs, w))
        ⊎ CloseFails (resets i d) (objs, w) × Throws (step sys (resets i d) (objs, w)).0
  unfolding step closes reset
  resets_cases i d h objs w e = elim (Bool-cases (h.fd.number ==ℤ minus_one)) [
    | inl n ↦ inl (rw e (ground arith))
    | inr n ↦ elim (Bool-cases ((sys.close h.fd.number w).0.value ==ℤ minus_one)) [
      | inl f ↦
          let q : (step sys (resets i d) (objs, w)).0 ≡ (reset sys d (h, w)).0 =
            ap (λ z. z.0)
              (on_object_lem (reset sys d) i {h' = (reset sys d (h, w)).1.0}
                {r = (reset sys d (h, w)).0} objs w (reset sys d (h, w)).1.1 e refl) in
          inr (
            rw e (==ℤ→ne _ _ n, ==ℤ→eq _ _ f),
            subst (λ (r : Outcome (Unit {0})). Throws r) (sym q) (ground arith),
          )
      | inr f ↦ inl (rw e (ground arith))
    ]
  ]

  destroys_cases :
      (i : ℕ) (h : FdHolder) (objs : Objects) (w : W)
      → objs i ≡ some h
      → (step sys (destroys i) (objs, w) ≡ step (errorless sys) (destroys i) (objs, w))
        ⊎ CloseFails (destroys i) (objs, w) × ((step sys (destroys i) (objs, w)).0 ≡ terminated)
  unfolding step closes destroy
  destroys_cases i h objs w e = elim (Bool-cases (h.fd.number ==ℤ minus_one)) [
    | inl n ↦ inl (rw e (ground arith))
    | inr n ↦ elim (Bool-cases ((sys.close h.fd.number w).0.value ==ℤ minus_one)) [
      | inl f ↦
          let q : (step sys (destroys i) (objs, w)).0 ≡ (destroy sys (h, w)).0 =
            ap (λ z. z.0)
              (end_object_lem (destroy sys) i {h' = (destroy sys (h, w)).1.0}
                {r = (destroy sys (h, w)).0} objs w (destroy sys (h, w)).1.1 e refl) in
          inr (rw e (==ℤ→ne _ _ n, ==ℤ→eq _ _ f), q ∙ ground arith)
      | inr f ↦ inl (rw e (ground arith))
    ]
  ]

  -- A statement does what it does where close reports no error, or its close reports one.
  pub step_cases :
      (c : Releasing sys) (op : Op) (objs : Objects) (w : W)
      → Owned c.opened (held objs) w
      → Allowed c.opened op (objs, w)
      → (step sys op (objs, w) ≡ step (errorless sys) op (objs, w))
        ⊎ CloseFails op (objs, w) × StopsAs op (step sys op (objs, w)).0
  unfolding step
  step_cases c (constructs i fd) objs w o a = inl refl
  step_cases c (constructs_empty i) objs w o a = inl refl
  step_cases c (move_constructs i j) objs w o a = inl refl
  step_cases c (move_assigns i j) objs w o a = inl refl
  step_cases c (swaps i j) objs w o a = inl refl
  step_cases c (releases i) objs w o a = inl refl
  step_cases c (resets i d) objs w o a =
      let (h, e) = live (objs i) a.0 in resets_cases i d h objs w e
  step_cases c (destroys i) objs w o a = let (h, e) = live (objs i) a in destroys_cases i h objs w e
