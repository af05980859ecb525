-- ===== src/Calls/Bounded.antt =====
-- How many calls many programs make before they have ended, whatever answers they get and in
-- whatever order their calls come.
use sex.Common.{
  ℕ, zero, suc, Bool, true, false, ◌+◌, ◌*◌, ◌≤◌, ◌<◌, ◌==◌, if◌then◌else◌, ◌≡◌, inl, inr, arith,
  Bool-cases, refl,
}
use sex.Calls.{CallProgram, ends, calls, Advances}

-- f 0 + … + f (n - 1)
abbrev pub sum_below : ℕ → (ℕ → ℕ) → ℕ
sum_below zero f = 0
sum_below (suc n) f = f n + sum_below n f

sum_below_other :
    (n t v : ℕ) (f : ℕ → ℕ) → n ≤ t → sum_below n (λ u. if t == u then v else f u) ≡ sum_below n f
sum_below_other zero t v f h = refl
sum_below_other (suc n) t v f h = ground (arith, sum_below_other n t v f)

sum_below_update :
    (n t v : ℕ) (f : ℕ → ℕ)
    → t < n
    → suc v ≡ f t
    → suc (sum_below n (λ u. if t == u then v else f u)) ≡ sum_below n f
sum_below_update zero t v f h e = absurd (omega arith)
sum_below_update (suc n) t v f h e = elim (Bool-cases (t == n)) [
  | inl same ↦ let at : t ≡ n = ground arith in ground (arith, sum_below_other n t v f)
  | inr other ↦ ground (arith, sum_below_update n t v f)
]

pub sum_below_same : (n b : ℕ) → sum_below n (λ u. b) ≡ b * n
sum_below_same zero b = omega arith
sum_below_same (suc n) b = grind (arith, sum_below_same n b)

module _ {C : Type 0} {Answer : C → Type 0} {R : Type 0} where
  -- The program ends after at most so many calls, whatever the answers.
  abbrev pub Within : ℕ → CallProgram C Answer R → Type 0
  Within d (ends r) = Unit
  Within zero (calls c f) = ⊥
  Within (suc d) (calls c f) = (a : Answer c) → Within d (f a)

  pub Within-le : (d d' : ℕ) (p : CallProgram C Answer R) → d ≤ d' → Within d p → Within d' p
  Within-le d d' (ends r) h w = tt
  Within-le zero d' (calls c f) h w = elim w [ ]
  Within-le (suc d) zero (calls c f) h w = absurd (omega arith)
  Within-le (suc d) (suc d') (calls c f) h w = λ a. Within-le d d' (f a) (omega arith) (w a)

  pub Within-if :
      (d : ℕ) (b : Bool) (p q : CallProgram C Answer R)
      → Within d p
      → Within d q
      → Within d (if b then p else q)
  Within-if d true p q v w = v
  Within-if d false p q v w = w

  module _ {K : Type 0} (happens : (c : C) → Answer c → K → Type 0) where
    -- A call takes one from the number.
    pub Within-Advances :
        (d : ℕ) (p : CallProgram C Answer R) (e : K) (p' : CallProgram C Answer R)
        → Within d p
        → Advances happens p e p'
        → (d' : ℕ) × (suc d' ≡ d) × Within d' p'
    Within-Advances d (ends r) e p' w a = elim a [ ]
    Within-Advances zero (calls c f) e p' w a = elim w [ ]
    Within-Advances (suc d) (calls c f) e p' w (a, h, is) = (d, refl, rw is (w a))

    -- Of many programs one makes a call: it takes one from the sum of what they may still make.
    pub sum_falls :
        (n t : ℕ) (d : ℕ → ℕ) (x : ℕ → CallProgram C Answer R) (e : K) (p : CallProgram C Answer R)
        → t < n
        → ((u : ℕ) → Within (d u) (x u))
        → Advances happens (x t) e p
        → (d' : ℕ → ℕ) × ((u : ℕ) → Within (d' u) (if t == u then p else x u))
          × (suc (sum_below n d') ≡ sum_below n d)
    sum_falls n t d x e p h w a =
        let (v, one, v_within) = Within-Advances (d t) (x t) e p (w t) a in
        (
          λ u. if t == u then v else d u,
          λ u. elim (Bool-cases (t == u)) [
            | inl same ↦ rw same v_within
            | inr other ↦ rw other (w u)
          ],
          sum_below_update n t v d h one,
        )
