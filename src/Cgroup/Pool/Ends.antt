-- ===== src/Cgroup/Pool/Ends.antt =====
-- The processes that run the program of `InitializeParentCgroup`, a call at a time, come to its end,
-- and do not block one another (sex/cgroup_controller.cpp).
use sex.Common.{ℕ, ◌*◌, ◌≤◌, Bool, true, false, ◌==◌, ◌≡◌, inl, inr, refl}
use sex.Runtime.{Sys}
use sex.Calls.Bounded.{Within, Within-if}
use sex.Flock.Guarded.Bounded.{guarded-Within}
use sex.Flock.Guarded.Pool.{Pool, ReachablePool}
use sex.Flock.Guarded.Pool.Ends.{PoolRun, guarded_pool_ends}
use sex.Flock.Guarded.Pool.Progress.{is_beginning, has_ended, PoolGoesOn, guarded-PoolGoesOn}
use sex.Cgroup.Program.{
  ParentCall, exists_call, enable_root_call, create_call, enable_call, ParentAnswer, after_create,
  parent_initialiser,
}
use sex.Cgroup.Pool.{Group, OnGroup, first_group, parent_discipline}

-- The answer reports no error.
abbrev pub IsFine : (c : ParentCall) → ParentAnswer c → Type 0
IsFine exists_call a = a.1 ≡ 0
IsFine create_call a = a.1 ≡ 0
IsFine enable_root_call good = good ≡ true
IsFine enable_call good = good ≡ true

answers :
    (k : Group) (c : ParentCall)
    → (a : ParentAnswer c) × (k' : Group) × OnGroup k c a k' × IsFine c a
answers k exists_call = ((k.present, 0), k, inr (refl, refl, refl), refl)
answers k create_call = ((true, 0), _, inr (refl, refl), refl)
answers k enable_root_call = (true, k, refl, refl)
answers k enable_call = (true, _, inl (refl, refl), refl)

module _ {W : Type 0} (sys : Sys W) where
  create-Within : (a : Bool × ℕ) → Within 1 (after_create sys a)
  create-Within a = Within-if 1 (a.1 == 0) _ _ (λ good. tt) tt

  making-Within : Within 3 (parent_initialiser sys).create
  making-Within good = Within-if 2 good _ _ (λ a. create-Within a) tt

  module _ (there : Bool) where
    -- From any state that processes reach in which they run the program of
    -- `InitializeParentCgroup`, in whatever order their calls come and whatever the kernel answers,
    -- `n` of them make at most `10 * n` calls together until all of them are out of it.
    pub parent_pool_ends :
        (n k : ℕ) (x y : Pool Group ParentAnswer)
        → ReachablePool OnGroup sys (parent_initialiser sys) (first_group there) x
        → PoolRun OnGroup n x k y
        → k ≤ 10 * n
    parent_pool_ends =
        guarded_pool_ends OnGroup sys (parent_initialiser sys) (first_group there) 10
          (guarded-Within sys (parent_initialiser sys) 3 making-Within)

    -- Processes that run the program of `InitializeParentCgroup` do not block one another on the
    -- lock file, although the shared lock is never unlocked: in a state that they reach, where all
    -- from some number on have not begun, and some process is not out of the action, the next call
    -- of some process can succeed, or the kernel can take the shared lock of a process away that
    -- asks for the exclusive one.
    pub parent-PoolGoesOn :
        (x : Pool Group ParentAnswer) (n t : ℕ)
        → ReachablePool OnGroup sys (parent_initialiser sys) (first_group there) x
        → ((u : ℕ) → n ≤ u → is_beginning (x.program u) ≡ true)
        → has_ended (x.program t) ≡ false
        → PoolGoesOn OnGroup IsFine x
    parent-PoolGoesOn = guarded-PoolGoesOn (parent_discipline sys there) sys IsFine answers
