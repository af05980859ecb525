-- ===== src/Fd/Ownership/Tables.antt =====
-- What a table of owned descriptors becomes when one is dropped, put in, or changes its place
-- (sex/util/fd_holder.cpp).
use mathlib.Core.Path.{fun_ext}
use sex.Common.{
  ℕ, Bool, true, ◌≡◌, ◌≢◌, ◌⊎◌, inl, inr, refl, sym, subst, ◌∙◌, arith, Bool-cases, ◌==◌,
}
use sex.Common.Int.{ℤ, minus_one, ◌==ℤ◌, ==ℤ→eq, ==ℤ→ne, ==ℤ_ne}
use sex.Runtime.{Sys}
use sex.Fd.Objects.{update}
use sex.Fd.Ownership.Defs.{Closing, Owned}
use sex.Fd.Ownership.Steps.{after_close, opened-after_close}

module _ {W : Type 0} (sys : Sys W) (c : Closing sys) (t : ℕ → ℤ) (w : W)
    (o : Owned c.opened t w) where
  open c use {opened}
  open o use {open_held, unique}

  -- What is closed, or nothing, was open.
  pub held_or_none : (i : ℕ) → (t i ≡ minus_one) ⊎ (opened w (t i) ≡ true)
  held_or_none i = elim (Bool-cases (t i ==ℤ minus_one)) [
    | inl p ↦ inl (==ℤ→eq _ _ p)
    | inr p ↦ inr (open_held i (==ℤ→ne _ _ p))
  ]

  still_open :
      (i : ℕ) (g : ℤ)
      → g ≢ minus_one
      → t i ≢ g
      → opened w g ≡ true
      → opened (after_close sys c (t i) w) g ≡ true
  still_open i g h ne e =
      rw (opened-after_close sys c (t i) g w (held_or_none i) h, e, ==ℤ_ne (t i) g ne) refl

  free_cases :
      (fd : ℤ)
      → fd ≢ minus_one
      → (fd ≡ minus_one) ⊎ (opened w fd ≡ true) × ((j : ℕ) → t j ≢ fd)
      → (opened w fd ≡ true) × ((j : ℕ) → t j ≢ fd)
  free_cases fd h (inl e) = absurd (h e)
  free_cases fd h (inr f) = f

  -- Closing what stands at `i` and putting a free descriptor there.
  pub set-Owned :
      (i : ℕ) (fd : ℤ)
      → (fd ≡ minus_one) ⊎ (opened w fd ≡ true) × ((j : ℕ) → t j ≢ fd)
      → Owned opened (update t i fd) (after_close sys c (t i) w)
  set-Owned i fd free = record {
    open_held = λ k h. elim (Bool-cases (i == k)) [
      | inl here ↦
          let h' : fd ≢ minus_one = rw here at h in
          let f = free_cases fd h' free in rw here (still_open i fd h' (f.1 i) f.0)
      | inr other ↦
          let h' : t k ≢ minus_one = rw other at h in
          rw other
            (still_open i (t k) h' (λ e. ground (arith, unique k i h' (sym e))) (open_held k h'))
    ];
    unique = λ k l h e. elim (Bool-cases (i == k)) [
      | inl here ↦ elim (Bool-cases (i == l)) [
        | inl here' ↦ ground arith
        | inr other' ↦
            let h' : fd ≢ minus_one = rw here at h in
            let e' : fd ≡ t l = rw (here, other') at e in
            absurd ((free_cases fd h' free).1 l (sym e'))
      ]
      | inr other ↦
          let h' : t k ≢ minus_one = rw other at h in
          elim (Bool-cases (i == l)) [
            | inl here' ↦
                let e' : t k ≡ fd = rw (other, here') at e in
                absurd ((free_cases fd (λ z. h' (e' ∙ z)) free).1 k e')
            | inr other' ↦ unique k l h' (rw (other, other') at e)
          ]
    ];
  }

  -- Letting go of what stands at `i`.
  pub forget-Owned : (i : ℕ) → Owned opened (update t i minus_one) w
  forget-Owned i = record {
    open_held = λ k h. ground (arith, open_held k);
    unique = λ k l h e. ground (arith, unique k l);
  }

  pub swap-Owned : (i j : ℕ) → Owned opened (update (update t i (t j)) j (t i)) w
  swap-Owned i j = record {
    open_held = λ k h. ground (arith, open_held k, open_held i, open_held j);
    unique = λ k l h e.
        ground (
          arith,
          unique k l,
          unique i l,
          unique j l,
          unique k i,
          unique k j,
          unique i j,
          unique j i,
        );
  }

-- A table that agrees with an owned one is owned.
pub Owned-cong :
    {W : Type 0} (opened : W → ℤ → Bool) (t t' : ℕ → ℤ) (w : W)
    → ((k : ℕ) → t' k ≡ t k)
    → Owned opened t w
    → Owned opened t' w
Owned-cong opened t t' w h o = subst (λ (u : ℕ → ℤ). Owned opened u w) (fun_ext (λ k. sym (h k))) o
