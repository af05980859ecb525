-- ===== src/Once/Pool/Progress.antt =====
-- Calls of operator() (sex/util/once.hpp) come to an end, however the calls of the threads are
-- ordered.
use sex.Common.{
  ℕ, zero, suc, ◌+◌, ◌==◌, Bool-cases, ◌*◌, ◌≤◌, ◌<◌, true, false, ◌≡◌, inl, inr, refl, ap, sym,
  subst, ◌∙◌, arith,
}
use sex.Runtime.{Outcome, done, thrown, terminated, exited, Exception}
use sex.Calls.{ends, Advances}
use sex.Calls.Bounded.{
  Within, Within-le, Within-if, Within-Advances, sum_below, sum_falls, sum_below_same,
}
use sex.Once.Program.{
  OnceProgram, unlocks, stores, after_action, acts, checks_again, locks, once_program,
}
use sex.Once.Threads.{
  Place, outside_call, waiting, locked, acting, storing, unlocking, unwinding, returned, threw,
  System, critical,
}
use sex.Once.Holder.{Held, reachable-Held}
use sex.Once.Pool.{
  Memory, Happens, Pool, goes_on_with, advances, begins_again, ReachablePool, pool_start,
  pool_after,
}
use sex.Once.Pool.Simulates.{program_at, Matches, once_pool_refines}
use sex.Once.Pool.Together.{has_ended}

stores-Within : Within 2 stores
stores-Within a b = tt

after_action-Within : (r : Outcome (Unit {0})) → Within 2 (after_action r)
after_action-Within (done _) = stores-Within
after_action-Within (thrown e) = λ a. tt
after_action-Within terminated = tt
after_action-Within (exited n) = tt

checks_again-Within : Within 4 checks_again
checks_again-Within set = Within-if 3 set (unlocks (done tt)) acts (λ a. tt) after_action-Within

once_program-Within : Within 6 once_program
once_program-Within set = Within-if 5 set (ends (done tt)) locks tt (λ a. checks_again-Within)

reachable-Within : (x : Pool) → ReachablePool x → (u : ℕ) → Within 6 (x.program u)
reachable-Within x pool_start u = once_program-Within
reachable-Within x (pool_after y _ r (advances t m p a)) u = elim (Bool-cases (t == u)) [
  | inl same ↦
      let (d, one, w) =
        Within-Advances (Happens t y.memory) 6 (y.program t) m p (reachable-Within y r t) a in
      rw same (Within-le d 6 p (omega arith) w)
  | inr other ↦ rw other (reachable-Within y r u)
]
reachable-Within x (pool_after y _ r (begins_again t o e)) u = elim (Bool-cases (t == u)) [
  | inl same ↦ rw same once_program-Within
  | inr other ↦ rw other (reachable-Within y r u)
]

-- Calls of the threads below `n`, none of which begins operator() again after its end.
pub data PoolRun (n : ℕ) (x : Pool) : ℕ → Pool → Type 0 where
  no_calls : PoolRun n x zero x
  one_call :
      {k : ℕ} {y : Pool}
      → PoolRun n x k y
      → (t : ℕ) (m : Memory) (p : OnceProgram) → t < n
      → Advances (Happens t y.memory) (y.program t) m p
      → PoolRun n x (suc k) (goes_on_with y t m p)

-- What the threads may still make, and what they have made.
PoolRun-sum :
    (n : ℕ) (x : Pool) (d : ℕ → ℕ)
    → ((u : ℕ) → Within (d u) (x.program u))
    → (k : ℕ) (y : Pool) → PoolRun n x k y
    → (d' : ℕ → ℕ) × ((u : ℕ) → Within (d' u) (y.program u)) × (k + sum_below n d' ≡ sum_below n d)
PoolRun-sum n x d w k y no_calls = (d, w, omega arith)
PoolRun-sum n x d w _ _ (one_call {k} {y} r t m p h a) =
    let (d₁, w₁, s₁) = PoolRun-sum n x d w k y r in
    let (d₂, w₂, s₂) = sum_falls (Happens t y.memory) n t d₁ y.program m p h w₁ a in
    (d₂, w₂, omega arith)

-- From any state that `n` threads reach in which they run the program of operator(), whatever the
-- order of their calls and whether the action returns or throws, they make at most `6 * n` calls
-- together before they would have to begin operator() again.
pub once_pool_ends : (n k : ℕ) (x y : Pool) → ReachablePool x → PoolRun n x k y → k ≤ 6 * n
once_pool_ends n k x y reachable r =
    let (d, w, s) = PoolRun-sum n x (λ u. 6) (reachable-Within x reachable) k y r in
    omega (arith, s, sum_below_same n 6)

-- The next call of some thread can happen.
abbrev pub PoolGoesOn : Pool → Type 0
PoolGoesOn x =
    (t : ℕ) × (m : Memory) × (p : OnceProgram) × Advances (Happens t x.memory) (x.program t) m p

module _ (x : Pool) (t : ℕ) where
  -- A thread that can go on by its program can go on.
  by_program :
      (p : OnceProgram)
      → x.program t ≡ p
      → (m : Memory) (p' : OnceProgram) → Advances (Happens t x.memory) p m p'
      → PoolGoesOn x
  by_program p e m p' a = (t, m, p', subst (λ z. Advances (Happens t x.memory) z m p') (sym e) a)

  critical_goes_on :
      (q : Place) (e : Exception) → critical q ≡ true → x.program t ≡ program_at q e → PoolGoesOn x
  critical_goes_on locked e c at = by_program _ at _ _ (x.memory.invoked, (refl, refl), refl)
  critical_goes_on acting e c at = by_program _ at _ _ (done tt, refl, refl)
  critical_goes_on storing e c at = by_program _ at _ _ (tt, refl, refl)
  critical_goes_on unlocking e c at = by_program _ at _ _ (tt, refl, refl)
  critical_goes_on unwinding e c at = by_program _ at _ _ (tt, refl, refl)
  critical_goes_on outside_call e c at = cc
  critical_goes_on waiting e c at = cc
  critical_goes_on returned e c at = cc
  critical_goes_on threw e c at = cc

module _ (x : Pool) (t : ℕ) where
  place_goes_on :
      (s : System) (q : Place) (e : Exception)
      → Matches x s
      → Held s
      → x.program t ≡ program_at q e
      → has_ended (program_at q e) ≡ false
      → PoolGoesOn x
  place_goes_on s outside_call e c h at n =
      by_program x t _ at _ _ (x.memory.invoked, (refl, refl), refl)
  place_goes_on s waiting e c (inl free) at n =
      by_program x t _ at _ _ (tt, (ap (λ (m : Memory). m.owner) c.same_memory ∙ free, refl), refl)
  place_goes_on s waiting e c (inr (v, owns, k)) at n =
      critical_goes_on x v (s.place v) (c.stands v).0 k (c.stands v).1
  place_goes_on s locked e c h at n = critical_goes_on x t locked e refl at
  place_goes_on s acting e c h at n = critical_goes_on x t acting e refl at
  place_goes_on s storing e c h at n = critical_goes_on x t storing e refl at
  place_goes_on s unlocking e c h at n = critical_goes_on x t unlocking e refl at
  place_goes_on s unwinding e c h at n = critical_goes_on x t unwinding e refl at
  place_goes_on s returned e c h at n = cc
  place_goes_on s threw e c h at n = cc

-- The threads never all block one another: in every state that they reach, if some thread is not
-- out of operator(), then the next call of some thread can happen.
pub once-PoolGoesOn :
    (x : Pool) (t : ℕ) → ReachablePool x → has_ended (x.program t) ≡ false → PoolGoesOn x
once-PoolGoesOn x t reachable n =
    let (s, r, c) = once_pool_refines x reachable in
    let (e, at) = c.stands t in
    place_goes_on x t s (s.place t) e c (reachable-Held s r) at (ap has_ended (sym at) ∙ n)
