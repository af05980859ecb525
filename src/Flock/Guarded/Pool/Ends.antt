-- ===== src/Flock/Guarded/Pool/Ends.antt =====
-- The processes that run a guarded program, a call at a time, come to its end
-- (sex/util/flock.hpp).
use sex.Common.{ℕ, zero, suc, ◌+◌, ◌*◌, ◌≤◌, ◌<◌, ◌==◌, ◌≡◌, inl, inr, arith, Bool-cases}
use sex.Runtime.{Sys}
use sex.Calls.{Advances}
use sex.Calls.Bounded.{Within, Within-le, Within-Advances, sum_below, sum_falls, sum_below_same}
use sex.Flock.Laws.{shared, free}
use sex.Flock.Guarded.{GuardProgram, Initialiser, guarded_program}
use sex.Flock.Guarded.Pool.{
  Kernel, locked, Happens, Converts, Pool, goes_on_with, advances, gives_up, ReachablePool,
  pool_start, pool_after,
}

module _ {K C : Type 0} {A : C → Type 0} (Own : K → (c : C) → A c → K → Type 0) where
  -- Calls of the processes below `n`, between which the kernel may take the shared lock of a
  -- process away that asks for the exclusive one.
  pub data PoolRun (n : ℕ) (x : Pool K A) : ℕ → Pool K A → Type 0 where
    no_calls : PoolRun n x zero x
    one_call :
        {k : ℕ} {y : Pool K A}
        → PoolRun n x k y
        → (t : ℕ) (e : Kernel K) (p : GuardProgram A) → t < n
        → Advances (Happens Own t y.kernel) (y.program t) e p
        → PoolRun n x (suc k) (goes_on_with y t e p)
    lock_taken :
        {k : ℕ} {y : Pool K A}
        → PoolRun n x k y
        → (t : ℕ) → Converts (y.program t)
        → y.kernel.lock t ≡ shared
        → PoolRun n x k (record y { kernel = locked y.kernel t free })

  -- What the processes may still make, and what they have made.
  PoolRun-sum :
      (n : ℕ) (x : Pool K A) (d : ℕ → ℕ)
      → ((u : ℕ) → Within (d u) (x.program u))
      → (k : ℕ) (y : Pool K A) → PoolRun n x k y
      → (d' : ℕ → ℕ) × ((u : ℕ) → Within (d' u) (y.program u))
        × (k + sum_below n d' ≡ sum_below n d)
  PoolRun-sum n x d w k y no_calls = (d, w, omega arith)
  PoolRun-sum n x d w _ _ (one_call {k} {y} r t e p h a) =
      let (d₁, w₁, s₁) = PoolRun-sum n x d w k y r in
      let (d₂, w₂, s₂) = sum_falls (Happens Own t y.kernel) n t d₁ y.program e p h w₁ a in
      (d₂, w₂, omega arith)
  PoolRun-sum n x d w _ _ (lock_taken {k} {y} r t c l) = PoolRun-sum n x d w k y r

  module _ {W : Type 0} (sys : Sys W) (i : Initialiser A) (k₀ : K) where
    -- A run from the beginning ends in a state that is reached.
    pub PoolRun-reaches :
        (n : ℕ) (x : Pool K A)
        → ReachablePool Own sys i k₀ x
        → (k : ℕ) (y : Pool K A) → PoolRun n x k y
        → ReachablePool Own sys i k₀ y
    PoolRun-reaches n x s k y no_calls = s
    PoolRun-reaches n x s _ _ (one_call {k} {y} r t e p h a) =
        pool_after y _ (PoolRun-reaches n x s k y r) (advances t e p a)
    PoolRun-reaches n x s _ _ (lock_taken {k} {y} r t c l) =
        pool_after y _ (PoolRun-reaches n x s k y r) (gives_up t c l)

    module _ (m : ℕ) (whole : Within m (guarded_program sys i)) where
      reachable-Within :
          (x : Pool K A) → ReachablePool Own sys i k₀ x → (u : ℕ) → Within m (x.program u)
      reachable-Within x pool_start u = whole
      reachable-Within x (pool_after y _ r (advances t e p a)) u = elim (Bool-cases (t == u)) [
        | inl same ↦
            let (d, one, w) =
              Within-Advances (Happens Own t y.kernel) m (y.program t) e p (reachable-Within y r t)
                a in
            rw same (Within-le d m p (omega arith) w)
        | inr other ↦ rw other (reachable-Within y r u)
      ]
      reachable-Within x (pool_after y _ r (gives_up t c l)) u = reachable-Within y r u

      -- From any state that processes reach in which they run a guarded program that makes at most
      -- `m` calls by itself, in whatever order their calls come and whatever the kernel answers, `n`
      -- of them make at most `m * n` calls together until all of them are out of it.
      pub guarded_pool_ends :
          (n k : ℕ) (x y : Pool K A) → ReachablePool Own sys i k₀ x → PoolRun n x k y → k ≤ m * n
      guarded_pool_ends n k x y reachable r =
          let (d, w, s) = PoolRun-sum n x (λ u. m) (reachable-Within x reachable) k y r in
          omega (arith, s, sum_below_same n m)
