-- ===== src/Mount/Ledger/Objects.antt =====
-- The two classes of mounts on a tally of what succeeds (sex/util/mount/bind.hpp,
-- sex/util/mount/tmpfs.hpp).
use sex.Common.{◌+◌, String, false, not, ◌&&◌, List, ◌≡◌, arith}
use sex.Common.Bits.{test_bit}
use sex.Runtime.{done}
use sex.Mount.{MountCalls}
use sex.Mount.Bind.{
  BindImpl, BindFunctions, bind_mount, rdonly_bit, file_functions, directory_functions,
}
use sex.Mount.TmpFs.{TmpFsMount, tmpfs_mount}
use sex.Mount.Ledger.{
  Use, mounting, unmounting, detaching, bit, use_once, use_all, Tally, no_calls, tallied, Balanced,
  nothing_left,
}

module _ {W : Type 0} (k : MountCalls W) where
  tmpfs_balance :
      (u : Use) (s : TmpFsMount × (W × Tally))
      → let (o', (w', t')) = use_once (tmpfs_mount (tallied k)) u s in
        t'.made + s.1.1.taken + bit s.0.mounted ≡ s.1.1.made + t'.taken + bit o'.mounted
  unfolding tmpfs_mount
  tmpfs_balance mounting s = ground arith
  tmpfs_balance unmounting s = ground arith
  tmpfs_balance detaching s = ground arith

  tmpfs_cleared :
      (s : TmpFsMount × (W × Tally))
      → ((tmpfs_mount (tallied k)).destroy s).0 ≡ done tt
      → let (o', (w', t')) = ((tmpfs_mount (tallied k)).destroy s).1 in
        t'.made + s.1.1.taken + bit (s.0.mounted && not s.0.detached) ≡ s.1.1.made + t'.taken
  unfolding tmpfs_mount
  tmpfs_cleared s e = ground arith

  tmpfs-Balanced : Balanced (tmpfs_mount (tallied k)) (λ o. Unit) (λ o. o.mounted) (λ o. o.detached)
  tmpfs-Balanced = record {
    stays = λ u s p. p;
    balance = λ u s p. tmpfs_balance u s;
    cleared = tmpfs_cleared;
  }

  -- A tmpfs object that starts unmounted takes back what it mounts. After any calls of mount,
  -- unmount and detach on it, whatever each of them returns or throws, and a destructor that
  -- returns, as many calls of umount have succeeded as calls of mount(2), except that it is one
  -- fewer if the object was detached while mounted.
  pub tmpfs_nothing_left :
      (uses : List Use) (o : TmpFsMount) (w : W)
      → o.mounted ≡ false
      → let (o', s) = use_all (tmpfs_mount (tallied k)) uses (o, (w, no_calls)) in
        ((tmpfs_mount (tallied k)).destroy (o', s)).0 ≡ done tt
        → let (_, (w', t)) = ((tmpfs_mount (tallied k)).destroy (o', s)).1 in
          t.made ≡ t.taken + bit (o'.mounted && o'.detached)
  tmpfs_nothing_left uses o w m e =
      nothing_left (tmpfs_mount (tallied k)) (λ o. Unit) _ _ tmpfs-Balanced uses o w tt m e

  -- CheckAndSetupDestination calls neither mount(2) nor umount.
  abbrev pub SetupKeeps : BindFunctions (W × Tally) → Type 0
  SetupKeeps setup =
      (source destination : String) (s : W × Tally) → (setup source destination s).1.1 ≡ s.1

  pub file_functions-SetupKeeps : SetupKeeps (file_functions (tallied k))
  unfolding file_functions
  file_functions-SetupKeeps source destination s = ground arith

  directory_functions-SetupKeeps : SetupKeeps (directory_functions (tallied k))
  unfolding directory_functions
  directory_functions-SetupKeeps source destination s = ground arith

  -- A bind that is not made read-only.
  abbrev pub Writable : BindImpl → Type 0
  Writable o = test_bit o.mount_flags rdonly_bit ≡ false

  module _ (setup : BindFunctions (W × Tally)) (keeps : SetupKeeps setup) where
    bind_balance :
        (u : Use) (s : BindImpl × (W × Tally))
        → Writable s.0
        → let (o', (w', t')) = use_once (bind_mount (tallied k) setup) u s in
          t'.made + s.1.1.taken + bit s.0.mounted ≡ s.1.1.made + t'.taken + bit o'.mounted
    unfolding bind_mount
    bind_balance mounting (o, s) p = ground (arith, keeps o.source o.destination s)
    bind_balance unmounting s p = ground arith
    bind_balance detaching s p = ground arith

    bind_stays :
        (u : Use) (s : BindImpl × (W × Tally))
        → Writable s.0
        → Writable (use_once (bind_mount (tallied k) setup) u s).0
    unfolding bind_mount
    bind_stays mounting s p = ground arith
    bind_stays unmounting s p = ground arith
    bind_stays detaching s p = ground arith

    bind_cleared :
        (s : BindImpl × (W × Tally))
        → ((bind_mount (tallied k) setup).destroy s).0 ≡ done tt
        → let (o', (w', t')) = ((bind_mount (tallied k) setup).destroy s).1 in
          t'.made + s.1.1.taken + bit (s.0.mounted && not s.0.detached) ≡ s.1.1.made + t'.taken
    unfolding bind_mount
    bind_cleared s e = ground arith

    bind-Balanced :
        Balanced (bind_mount (tallied k) setup) Writable (λ o. o.mounted) (λ o. o.detached)
    bind-Balanced = record { stays = bind_stays; balance = bind_balance; cleared = bind_cleared }

  -- A bind that is writable and starts unmounted takes back what it mounts, with a
  -- CheckAndSetupDestination that calls neither mount(2) nor umount. On any kernel: after any calls
  -- of mount, unmount and detach, whatever they return or throw, and a destructor that returns, as
  -- many calls of umount have succeeded as calls of mount(2), and one fewer if the object was
  -- detached while mounted.
  pub bind_nothing_left :
      (setup : BindFunctions (W × Tally)) (uses : List Use) (o : BindImpl) (w : W)
      → SetupKeeps setup
      → Writable o
      → o.mounted ≡ false
      → let (o', s) = use_all (bind_mount (tallied k) setup) uses (o, (w, no_calls)) in
        ((bind_mount (tallied k) setup).destroy (o', s)).0 ≡ done tt
        → let (_, (w', t)) = ((bind_mount (tallied k) setup).destroy (o', s)).1 in
          t.made ≡ t.taken + bit (o'.mounted && o'.detached)
  bind_nothing_left setup uses o w keeps p m e =
      nothing_left (bind_mount (tallied k) setup) Writable _ _ (bind-Balanced setup keeps) uses o w
        p m e
