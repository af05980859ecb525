-- ===== src/Fd/Ownership/Steps.antt =====
-- What each statement on holders does to the table of what is held, and to the world.
use sex.Common.{
  ℕ, Bool, true, false, not, ◌&&◌, Option, none, some, ◌≡◌, ◌≢◌, ◌⊎◌, inl, inr, refl, sym, subst,
  ap, ◌∙◌, arith, Bool-cases, Option-cases, ◌==◌, if◌then◌else◌,
}
use sex.Common.Int.{ℤ, minus_one, ◌==ℤ◌, ==ℤ→eq, ==ℤ→ne, ==ℤ_ne}
use sex.Runtime.{◌>>=◌, pure, Outcome, done, Method, Sys}
use sex.Fd.{FileDescriptor, FdHolder, empty_holder, move_assign, reset, release, destroy, swap}
use sex.Fd.Objects.{
  Objects, update, on_object, end_object, two_objects, Op, constructs, constructs_empty,
  move_constructs, move_assigns, swaps, resets, releases, destroys, step, held, number_in,
}
use sex.Fd.Ownership.Defs.{Closing, Owned, Allowed, closes, held_after}

if_push {ℓ} :
    {A B : Type ℓ} (f : A → B) (b : Bool) (x y : A)
    → f (if b then x else y) ≡ (if b then f x else f y)
if_push f true x y = refl
if_push f false x y = refl

held-update :
    (objs : Objects) (i : ℕ) (o : Option FdHolder) (k : ℕ)
    → held (update objs i o) k ≡ update (held objs) i (number_in o) k
held-update objs i o k = if_push number_in (i == k) o (objs k)

held-update-update :
    (objs : Objects) (i j : ℕ) (o p : Option FdHolder) (k : ℕ)
    → held (update (update objs i o) j p) k
      ≡ update (update (held objs) i (number_in o)) j (number_in p) k
held-update-update objs i j o p k =
    held-update (update objs i o) j p k
    ∙ ap (λ n. if j == k then number_in p else n) (held-update objs i o k)

pub live : (o : Option FdHolder) → o ≢ none → (h : FdHolder) × (o ≡ some h)
live o a = elim (Option-cases o) [ inl e ↦ absurd (a e) | inr r ↦ r ]

module _ {W : Type 0} where
  -- The step of a swap or an assignment between two live objects.
  two_objects_lem :
      (f : FdHolder → FdHolder → FdHolder × FdHolder) (i j : ℕ) {h h' : FdHolder} (objs : Objects)
      (w : W)
      → objs i ≡ some h
      → objs j ≡ some h'
      → two_objects i j f (objs, w)
        ≡ (done tt, (update (update objs i (some (f h h').0)) j (some (f h h').1), w))
  two_objects_lem f i j objs w e e' = rw (e, e') refl

  pub on_object_lem :
      {A : Type 0} (m : Method FdHolder W A) (i : ℕ) {h h' : FdHolder} {r : Outcome A}
      (objs : Objects) (w w' : W)
      → objs i ≡ some h
      → m (h, w) ≡ (r, (h', w'))
      → on_object i m (objs, w) ≡ (r, (update objs i (some h'), w'))
  on_object_lem m i objs w w' e e' = rw (e, e') refl

  pub end_object_lem :
      (m : Method FdHolder W (Unit {0})) (i : ℕ) {h h' : FdHolder} {r : Outcome (Unit {0})}
      (objs : Objects) (w w' : W)
      → objs i ≡ some h
      → m (h, w) ≡ (r, (h', w'))
      → end_object i m (objs, w) ≡ (r, (update objs i none, w'))
  end_object_lem m i objs w w' e e' = rw (e, e') refl

module _ {W : Type 0} (sys : Sys W) (c : Closing sys) where
  open c use {opened}

  -- The world after the descriptor `fd`, or none, has been closed.
  unfoldable pub after_close : ℤ → W → W
  after_close fd w = if fd ==ℤ minus_one then w else (sys.close fd w).1

  pub opened-after_close :
      (fd g : ℤ) (w : W)
      → (fd ≡ minus_one) ⊎ (opened w fd ≡ true)
      → g ≢ minus_one
      → opened (after_close fd w) g ≡ (opened w g && not (fd ==ℤ g))
  unfolding after_close
  opened-after_close fd g w (inl e) h = rw e (ground (arith, ==ℤ_ne minus_one g (λ p. h (sym p))))
  opened-after_close fd g w (inr e) h = ground (arith, ==ℤ→eq fd minus_one, c.close_closes w fd g e)

  -- `reset` closes what was held and takes the new descriptor.
  reset_lem :
      (h : FdHolder) (d : FileDescriptor) (w : W)
      → (h.fd.number ≡ minus_one) ⊎ (opened w h.fd.number ≡ true)
      → reset sys d (h, w) ≡ (done tt, (record { fd = d }, after_close h.fd.number w))
  unfolding reset after_close
  reset_lem h d w (inl e) = ground arith
  reset_lem h d w (inr e) = ground (arith, ==ℤ_ne _ _ (c.close_succeeds w h.fd.number e))

  -- The destructor closes what was held, and does not end the program.
  pub destroy_lem :
      (h : FdHolder) (w : W)
      → (h.fd.number ≡ minus_one) ⊎ (opened w h.fd.number ≡ true)
      → destroy sys (h, w) ≡ (done tt, (empty_holder, after_close h.fd.number w))
  unfolding destroy after_close
  destroy_lem h w (inl e) = ground arith
  destroy_lem h w (inr e) = ground (arith, ==ℤ_ne _ _ (c.close_succeeds w h.fd.number e))

  -- A statement returns, closes what `closes` says, and leaves the table `held_after`.
  pub record Effect (op : Op) (objs : Objects) (w : W) : Type 0 where
    pub returns : (step sys op (objs, w)).0 ≡ done tt
    pub world : (step sys op (objs, w)).1.1 ≡ after_close (closes op objs) w
    pub table : (k : ℕ) → held (step sys op (objs, w)).1.0 k ≡ held_after op objs k

  -- What the object at `i` holds is nothing or open.
  held_cases :
      (i : ℕ) {h : FdHolder} (objs : Objects) (w : W)
      → Owned opened (held objs) w
      → objs i ≡ some h
      → (h.fd.number ≡ minus_one) ⊎ (opened w h.fd.number ≡ true)
  held_cases i {h} objs w o e =
      let q : held objs i ≡ h.fd.number = ap number_in e in
      elim (Bool-cases (h.fd.number ==ℤ minus_one)) [
        | inl p ↦ inl (==ℤ→eq _ _ p)
        | inr p ↦
            inr (subst (λ n. opened w n ≡ true) q (o.open_held i (λ z. ==ℤ→ne _ _ p (sym q ∙ z))))
      ]

  two_objects-Effect :
      (op : Op) (i j : ℕ) (objs : Objects) (w : W) {h h' : FdHolder}
      → objs i ≡ some h
      → objs j ≡ some h'
      → step sys op (objs, w) ≡ (done tt, (update (update objs i (some h')) j (some h), w))
      → closes op objs ≡ minus_one
      → held_after op objs ≡ update (update (held objs) i (held objs j)) j (held objs i)
      → Effect op objs w
  unfolding after_close
  two_objects-Effect op i j objs w e e' q c' t = record {
    returns = rw q refl;
    world = rw (q, c') refl;
    table = λ k. rw (q, t, e, e') (held-update-update objs i j _ _ k);
  }

  pub step-Effect :
      (op : Op) (objs : Objects) (w : W)
      → Owned opened (held objs) w
      → Allowed opened op (objs, w)
      → Effect op objs w
  unfolding step held_after closes after_close
  step-Effect (constructs i fd) objs w o a = record {
    returns = refl;
    world = refl;
    table = held-update objs i _;
  }
  step-Effect (constructs_empty i) objs w o a = record {
    returns = refl;
    world = refl;
    table = held-update objs i _;
  }
  step-Effect (move_constructs i j) objs w o a =
      let (h, e) = live (objs j) a.1 in
      record {
        returns = rw (e, step) refl;
        world = rw (e, step) refl;
        table = λ k. rw (e, step) (held-update-update objs j i _ (some h) k);
      }
  step-Effect (move_assigns i j) objs w o a =
      let (h, e) = live (objs i) a.0 in
      let (h', e') = live (objs j) a.1 in
      two_objects-Effect _ i j objs w e e' (two_objects_lem move_assign i j objs w e e') refl refl
  step-Effect (swaps i j) objs w o a =
      let (h, e) = live (objs i) a.0 in
      let (h', e') = live (objs j) a.1 in
      two_objects-Effect _ i j objs w e e' (two_objects_lem swap i j objs w e e') refl refl
  step-Effect (resets i d) objs w o a =
      let (h, e) = live (objs i) a.0 in
      let q =
        on_object_lem (reset sys d) i objs w _ e (reset_lem h d w (held_cases i objs w o e)) in
      record {
        returns = rw (q, step) refl;
        world = rw (q, e, step) refl;
        table = λ k. rw (q, step) (held-update objs i _ k);
      }
  step-Effect (releases i) objs w o a =
      let (h, e) = live (objs i) a in
      let q =
        on_object_lem (release >>= λ _. pure tt) i {h' = empty_holder} {r = done tt} objs w w e
          refl in
      record {
        returns = rw (q, step) refl;
        world = rw (q, step) refl;
        table = λ k. rw (q, step) (held-update objs i _ k);
      }
  step-Effect (destroys i) objs w o a =
      let (h, e) = live (objs i) a in
      let q =
        end_object_lem (destroy sys) i objs w _ e (destroy_lem h w (held_cases i objs w o e)) in
      record {
        returns = rw (q, step) refl;
        world = rw (q, e, step) refl;
        table = λ k. rw (q, step) (held-update objs i none k);
      }
