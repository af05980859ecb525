-- ===== src/Fd/Ownership.antt =====
-- Each open descriptor has at most one owner, and a statement on holders closes what it drops and
-- nothing else (sex/util/fd_holder.cpp).
mod Defs
pub mod Steps
mod Tables
mod Failing
pub use Defs.*
pub use Failing.{StopsAt}
use mathlib.Core.Path.{fun_ext}
use sex.Common.{
  ℕ, Bool, true, false, not, ◌&&◌, Option, none, some, ◌≡◌, ◌≢◌, ◌⊎◌, inl, inr, refl, sym, subst,
  ap, ◌∙◌, arith, Bool-cases, Option-cases, ◌==◌, if◌then◌else◌, List, [], ◌∷◌,
}
use sex.Common.Int.{ℤ, minus_one, ◌==ℤ◌, ==ℤ→eq, ==ℤ→ne, ==ℤ_ne, ==ℤ_self}
use sex.Runtime.{◌>>◌, ◌>>=◌, done, terminated, Method, Sys}
use sex.Fd.Objects.{
  Objects, update, Op, constructs, constructs_empty, move_constructs, move_assigns, swaps, resets,
  releases, destroys, step, run, held, number_in,
}
use Tables.{held_or_none, set-Owned, forget-Owned, swap-Owned, Owned-cong}
use Failing.{CloseFails, StopsAs, step_cases, stopped}
use Steps.{after_close, opened-after_close, Effect, step-Effect}

module _ {W : Type 0} (sys : Sys W) (c : Closing sys) where
  open c use {opened}

  held_after-Owned :
      (op : Op) (objs : Objects) (w : W)
      → Owned opened (held objs) w
      → Allowed opened op (objs, w)
      → Owned opened (held_after op objs) (after_close sys c (closes op objs) w)
  unfolding held_after closes after_close
  held_after-Owned (constructs i fd) objs w o a =
      let e : held objs i ≡ minus_one = ap number_in a.0 in
      subst (λ n. Owned opened (update (held objs) i fd) (after_close sys c n w)) e
        (set-Owned sys c (held objs) w o i fd a.1)
  held_after-Owned (constructs_empty i) objs w o a = forget-Owned sys c (held objs) w o i
  held_after-Owned (move_constructs i j) objs w o a =
      let e : held objs i ≡ minus_one = ap number_in a.0 in
      subst (λ n. Owned opened (update (update (held objs) j n) i (held objs j)) w) e
        (swap-Owned sys c (held objs) w o j i)
  held_after-Owned (move_assigns i j) objs w o a = swap-Owned sys c (held objs) w o i j
  held_after-Owned (swaps i j) objs w o a = swap-Owned sys c (held objs) w o i j
  held_after-Owned (resets i d) objs w o a = set-Owned sys c (held objs) w o i d.number a.1
  held_after-Owned (releases i) objs w o a = forget-Owned sys c (held objs) w o i
  held_after-Owned (destroys i) objs w o a = set-Owned sys c (held objs) w o i minus_one (inl refl)

  closes_cases :
      (op : Op) (objs : Objects) (w : W)
      → Owned opened (held objs) w
      → (closes op objs ≡ minus_one) ⊎ (opened w (closes op objs) ≡ true)
  unfolding closes
  closes_cases (resets i d) objs w o = held_or_none sys c (held objs) w o i
  closes_cases (destroys i) objs w o = held_or_none sys c (held objs) w o i
  closes_cases _ objs w o = inl refl

  step_keeps :
      (op : Op) (objs : Objects) (w : W)
      → Owned opened (held objs) w
      → Allowed opened op (objs, w)
      → Owned opened (held (step sys op (objs, w)).1.0) (step sys op (objs, w)).1.1
  step_keeps op objs w o a =
      let e = step-Effect sys c op objs w o a in
      rw e.world (Owned-cong opened _ _ _ e.table (held_after-Owned op objs w o a))

  -- From a state where every descriptor that a holder has is open and has that one holder, a
  -- statement whose objects live and which adopts only a free open descriptor returns without
  -- throwing and leads to such a state again; a descriptor `g` is open afterwards exactly if it was
  -- open before and is not the one that the statement's object gave up by `reset` or destruction.
  pub step-Owned :
      (op : Op) (objs : Objects) (w : W) (g : ℤ)
      → Owned opened (held objs) w
      → Allowed opened op (objs, w)
      → g ≢ minus_one
      → let (r, (objs', w')) = step sys op (objs, w) in
        (r ≡ done tt)
        × Owned opened (held objs') w'
        × (opened w' g ≡ (opened w g && not (closes op objs ==ℤ g)))
  step-Owned op objs w g o a h =
      let e = step-Effect sys c op objs w o a in
      (
        e.returns,
        step_keeps op objs w o a,
        rw e.world (opened-after_close sys c _ g w (closes_cases op objs w o) h),
      )

module _ {W : Type 0} (sys : Sys W) (c : Releasing sys) where
  open c use {opened}

  -- Each statement of a program is allowed where it stands.
  abbrev AllAllowed : List Op → Objects × W → Type 0
  AllAllowed [] s = Unit
  AllAllowed (op ∷ ops) s = Allowed opened op s × AllAllowed ops (step sys op s).1

  -- A statement has the effect that it would have if close reported no error, or its close fails.
  step_goes :
      (op : Op) (objs : Objects) (w : W)
      → Owned opened (held objs) w
      → Allowed opened op (objs, w)
      → let (r, (objs', w')) = step sys op (objs, w) in
        (r ≡ done tt) × Owned opened (held objs') w' ⊎ CloseFails sys op (objs, w) × StopsAs op r
  step_goes op objs w o a =
      let sys' = errorless sys in
      let c' = errorless_closing sys c in
      elim (step_cases sys c op objs w o a) [
        | inr f ↦ inr f
        | inl same ↦ inl (
            rw same ((step-Effect sys' c' op objs w o a).returns, step_keeps sys' c' op objs w o a))
      ]

  -- If close releases an open descriptor and touches no other, whether it then reports an error or
  -- not: a program of statements that are all allowed where they stand, begun in a state where each
  -- descriptor held is open and has one holder, runs to its end without throwing, and ends in such
  -- a state; or it stops at the first statement whose close of an open descriptor reports an error,
  -- by an exception if that is a `reset`, and by the end of the program if it is a destructor.
  pub run-Owned :
      (ops : List Op) (objs : Objects) (w : W)
      → Owned opened (held objs) w
      → AllAllowed ops (objs, w)
      → let (r, (objs', w')) = run sys ops (objs, w) in
        (r ≡ done tt) × Owned opened (held objs') w' ⊎ StopsAt sys ops (objs, w) r
  unfolding run
  run-Owned [] objs w o a = inl (refl, o)
  run-Owned (op ∷ ops) objs w o a =
      let (objs', w') = (step sys op (objs, w)).1 in
      elim (step_goes op objs w o a.0) [
        | inr (f, s) ↦ inr (inl (f, stopped sys op ops (objs, w) s))
        | inl (e, o') ↦ elim (run-Owned ops objs' w' o' a.1) [
          | inl (e', o'') ↦ inl (rw (e, ◌>>◌, ◌>>=◌) (e', o''))
          | inr t ↦ inr (inr (e, rw (e, ◌>>◌, ◌>>=◌) t))
        ]
      ]
