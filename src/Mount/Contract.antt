-- ===== src/Mount/Contract.antt =====
-- What a class of mounts promises behind IMount, as one state machine
-- (sex/util/mount/mount.hpp).
use sex.Common.{Bool, true, false, ◌≡◌, ◌≢◌, ◌⊎◌, arith}
use sex.Runtime.{done, Panics}
use sex.Result.{ok}
use sex.Mount.{IMount, MountCalls}
use sex.Mount.Bind.{BindImpl, BindFunctions, bind_mount}
use sex.Mount.TmpFs.{TmpFsMount, tmpfs_mount}

-- The states that a client sees; a detached object keeps nothing to itself.
pub data Phase : Type 0 where
  idle active gone : Phase

abbrev phase : Bool → Bool → Phase
phase mounted true = gone
phase true false = active
phase false false = idle

-- A class of mounts, seen through the phase of its objects, keeps the contract: `mount` succeeds
-- only on an idle object and makes it active, `unmount` only on an active one and makes it idle,
-- `detach` on any that is not gone and makes it gone; a call that does not succeed leaves the phase;
-- a call in the wrong phase panics without touching anything; and the destructor of an object
-- that is not active does nothing.
pub record Contract {O W : Type 0} (i : IMount O W) (seen : O → Phase) : Type 0 where
  pub mount_moves :
      (o : O) (w : W)
      → (seen o ≡ idle) × ((i.mount (o, w)).0 ≡ done (ok tt)) × (seen (i.mount (o, w)).1.0 ≡ active)
        ⊎ ((i.mount (o, w)).0 ≢ done (ok tt)) × (seen (i.mount (o, w)).1.0 ≡ seen o)
  pub unmount_moves :
      (o : O) (w : W)
      → (seen o ≡ active)
          × ((i.unmount (o, w)).0 ≡ done (ok tt))
          × (seen (i.unmount (o, w)).1.0 ≡ idle)
        ⊎ ((i.unmount (o, w)).0 ≢ done (ok tt)) × (seen (i.unmount (o, w)).1.0 ≡ seen o)
  pub detach_moves :
      (o : O) (w : W)
      → (seen o ≢ gone)
          × ((i.detach (o, w)).0 ≡ done tt)
          × (seen (i.detach (o, w)).1.0 ≡ gone)
          × ((i.detach (o, w)).1.1 ≡ w)
        ⊎ (seen o ≡ gone) × Panics (i.detach (o, w)).0 × ((i.detach (o, w)).1 ≡ (o, w))
  pub mount_elsewhere :
      (o : O) (w : W) → (seen o ≡ idle) ⊎ Panics (i.mount (o, w)).0 × ((i.mount (o, w)).1 ≡ (o, w))
  pub unmount_elsewhere :
      (o : O) (w : W)
      → (seen o ≡ active) ⊎ Panics (i.unmount (o, w)).0 × ((i.unmount (o, w)).1 ≡ (o, w))
  pub destroy_keeps : (o : O) (w : W) → (seen o ≡ active) ⊎ (i.destroy (o, w) ≡ (done tt, (o, w)))

abbrev pub bind_phase : BindImpl → Phase
bind_phase m = phase m.mounted m.detached

abbrev pub tmpfs_phase : TmpFsMount → Phase
tmpfs_phase m = phase m.mounted m.detached

module _ {W : Type 0} (k : MountCalls W) where
  bind_mount_moves :
      (setup : BindFunctions W) (o : BindImpl) (w : W)
      → (bind_phase o ≡ idle)
          × (((bind_mount k setup).mount (o, w)).0 ≡ done (ok tt))
          × (bind_phase ((bind_mount k setup).mount (o, w)).1.0 ≡ active)
        ⊎ (((bind_mount k setup).mount (o, w)).0 ≢ done (ok tt))
          × (bind_phase ((bind_mount k setup).mount (o, w)).1.0 ≡ bind_phase o)
  unfolding bind_mount
  bind_mount_moves setup o w = ground arith

  -- Bind mounts, whatever CheckAndSetupDestination does, keep the contract of IMount: `mount` returns
  -- Ok only on an idle object and makes it active, `unmount` only on an active one and makes it idle,
  -- `detach` makes any object that is not gone gone without touching the world; a `mount` or
  -- `unmount` that does not return Ok leaves the phase as it was; a call in the wrong phase panics
  -- and changes nothing; and the destructor of an object that is not active does nothing.
  pub bind_mount-Contract : (setup : BindFunctions W) → Contract (bind_mount k setup) bind_phase
  unfolding bind_mount
  bind_mount-Contract setup = record {
    mount_moves = bind_mount_moves setup;
    unmount_moves = λ o w. ground arith;
    detach_moves = λ o w. ground arith;
    mount_elsewhere = λ o w. ground arith;
    unmount_elsewhere = λ o w. ground arith;
    destroy_keeps = λ o w. ground arith;
  }

  -- Mounts of a tmpfs keep the same contract of IMount as bind mounts: mount from idle to active,
  -- unmount from active to idle, detach to gone, a panic and no change in the wrong phase, no change
  -- of phase without Ok, and a destructor that acts on active objects only.
  pub tmpfs_mount-Contract : Contract (tmpfs_mount k) tmpfs_phase
  unfolding tmpfs_mount
  tmpfs_mount-Contract = record {
    mount_moves = λ o w. ground arith;
    unmount_moves = λ o w. ground arith;
    detach_moves = λ o w. ground arith;
    mount_elsewhere = λ o w. ground arith;
    unmount_elsewhere = λ o w. ground arith;
    destroy_keeps = λ o w. ground arith;
  }
