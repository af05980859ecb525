-- ===== src/Container/Processes/Pool/Ends.antt =====
-- The processes that run the program of `Initialize`, a call at a time, come to its end, and do not
-- block one another (sex/container.cpp).
use sex.Common.{ℕ, ◌*◌, ◌≤◌, Bool, true, false, ◌≡◌, inr, refl}
use sex.Runtime.{Sys}
use sex.Flock.Guarded.Bounded.{guarded-Within}
use sex.Flock.Guarded.Pool.Ends.{PoolRun, guarded_pool_ends}
use sex.Flock.Guarded.Pool.Progress.{is_beginning, has_ended, PoolGoesOn, guarded-PoolGoesOn}
use sex.Container.Program.{OwnCall, exists_call, create_call, OwnAnswer, sbox_initialiser}
use sex.Container.Processes.Pool.{Sbox, OnSbox, first_sbox, with_directory, Pool, ReachablePool}
use sex.Container.Processes.Pool.Discipline.{sbox_discipline}

-- The answer reports no error.
abbrev pub IsFine : (c : OwnCall) → OwnAnswer c → Type 0
IsFine c a = a.1 ≡ 0

answers : (k : Sbox) (c : OwnCall) → (a : OwnAnswer c) × (k' : Sbox) × OnSbox k c a k' × IsFine c a
answers k exists_call = ((k.present, 0), k, inr (refl, refl, refl), refl)
answers k create_call = ((true, 0), with_directory k, inr (refl, refl), refl)

module _ {W : Type 0} (sys : Sys W) (there : Bool) where
  -- From any state that processes reach in which they run the program of `Initialize`, in whatever
  -- order their calls come and whatever the kernel answers, `n` of them make at most `8 * n`
  -- calls together until all of them are out of it; nothing is tried again.
  pub initialize_pool_ends :
      (n k : ℕ) (x y : Pool) → ReachablePool sys there x → PoolRun OnSbox n x k y → k ≤ 8 * n
  initialize_pool_ends =
      guarded_pool_ends OnSbox sys sbox_initialiser (first_sbox there) 8
        (guarded-Within sys sbox_initialiser 1 (λ a. tt))

  -- The processes do not block one another on the lock file, although the shared lock is never
  -- unlocked: in a state that they reach, where all from some number on have not begun, and some
  -- process is not out of the action, the next call of some process can succeed, or the kernel can
  -- take the shared lock of a process away that asks for the exclusive one.
  pub initialize-PoolGoesOn :
      (x : Pool) (n t : ℕ)
      → ReachablePool sys there x
      → ((u : ℕ) → n ≤ u → is_beginning (x.program u) ≡ true)
      → has_ended (x.program t) ≡ false
      → PoolGoesOn OnSbox IsFine x
  initialize-PoolGoesOn = guarded-PoolGoesOn (sbox_discipline there) sys IsFine answers
