-- ===== src/Mount/Ledger.antt =====
-- What a client of IMount mounts, and what is unmounted again (sex/util/mount).
pub mod Objects
use sex.Common.{
  ℕ, ◌+◌, ◌≤◌, String, Bool, true, false, not, ◌&&◌, if◌then◌else◌, List, [], ◌∷◌, ◌≡◌, ◌≢◌, ◌⊎◌,
  arith, refl, bit_or, ◌^◌, ◌==◌,
}
use sex.Common.Int.{minus_one, ◌==ℤ◌, ==ℤ_ne, ==ℤ→ne, ==ℤ→eq}
use sex.Common.Bits.{test_bit}
use sex.Runtime.{Reply, done, num}
use sex.Result.{ok}
use sex.Mount.{IMount, MountCalls}
use sex.Mount.Bind.{BindImpl, BindFunctions, bind_mount, rdonly_bit, remount_bit}
use sex.Mount.TmpFs.{TmpFsMount, tmpfs_mount}

-- The calls of a client on one object; what a call throws is caught.
pub data Use : Type 0 where
  mounting unmounting detaching : Use

abbrev pub bit : Bool → ℕ
bit b = if b then 1 else 0

module _ {O W : Type 0} (i : IMount O W) where
  -- The object and the world after one call, however it ends.
  abbrev pub use_once : Use → O × W → O × W
  use_once mounting s = (i.mount s).1
  use_once unmounting s = (i.unmount s).1
  use_once detaching s = (i.detach s).1

  unfoldable pub use_all : List Use → O × W → O × W
  use_all [] s = s
  use_all (u ∷ us) s = use_all us (use_once u s)

-- How often mount(2) and umount have succeeded.
pub record Tally : Type 0 where
  pub made : ℕ
  pub taken : ℕ

abbrev pub no_calls : Tally
no_calls = record { made = 0; taken = 0 }

abbrev succeeded : Reply → ℕ
succeeded reply = if reply.value ==ℤ minus_one then 0 else 1

-- Any calls, with a tally of those of mount(2) and umount that succeed beside the world.
abbrev pub tallied : {W : Type 0} → MountCalls W → MountCalls (W × Tally)
tallied k = record {
  sys = record {
    format = k.sys.format;
    strerror = k.sys.strerror;
    error_text = k.sys.error_text;
    close = λ fd s. let (reply, w) = k.sys.close fd s.0 in (reply, (w, s.1));
  };
  status = λ path s. let (found, w) = k.status path s.0 in (found, (w, s.1));
  create_directories = λ path s. let (code, w) = k.create_directories path s.0 in (code, (w, s.1));
  open_output = λ path s. let (good, w) = k.open_output path s.0 in (good, (w, s.1));
  parent_path = k.parent_path;
  mount_call = λ source target type flags data_text s.
      let (reply, w) = k.mount_call source target type flags data_text s.0 in
      (reply, (w, record s.1 { made = s.1.made + succeeded reply }));
  umount_call = λ target s.
      let (reply, w) = k.umount_call target s.0 in
      (reply, (w, record s.1 { taken = s.1.taken + succeeded reply }));
}

-- What the objects say, by `mounted` and `detached`, agrees with the tally: a call changes both
-- alike, and the destructor takes away what is not detached. This is asked of the objects that are
-- `Proper`, and no call makes one improper.
pub record Balanced {O W : Type 0} (i : IMount O (W × Tally)) (Proper : O → Type 0)
    (mounted detached : O → Bool) : Type 0 where
  pub stays : (u : Use) (s : O × (W × Tally)) → Proper s.0 → Proper (use_once i u s).0
  pub balance :
      (u : Use) (s : O × (W × Tally))
      → Proper s.0
      → let (o', (w', t')) = use_once i u s in
        t'.made + s.1.1.taken + bit (mounted s.0) ≡ s.1.1.made + t'.taken + bit (mounted o')
  pub cleared :
      (s : O × (W × Tally))
      → (i.destroy s).0 ≡ done tt
      → let (o', (w', t')) = (i.destroy s).1 in
        t'.made + s.1.1.taken + bit (mounted s.0 && not (detached s.0)) ≡ s.1.1.made + t'.taken

module _ {O W : Type 0} (i : IMount O (W × Tally)) (Proper : O → Type 0)
    (mounted detached : O → Bool) (b : Balanced i Proper mounted detached) where
  open b use {stays, balance, cleared}

  balance_all :
      (us : List Use) (s : O × (W × Tally))
      → Proper s.0
      → let (o', (w', t')) = use_all i us s in
        t'.made + s.1.1.taken + bit (mounted s.0) ≡ s.1.1.made + t'.taken + bit (mounted o')
  unfolding use_all
  balance_all [] s p = refl
  balance_all (u ∷ us) s p =
      omega (arith, balance u s p, balance_all us (use_once i u s) (stays u s p))

  pub nothing_left :
      (us : List Use) (o : O) (w : W)
      → Proper o
      → mounted o ≡ false
      → let (o', s) = use_all i us (o, (w, no_calls)) in
        (i.destroy (o', s)).0 ≡ done tt
        → let (_, (w', t)) = (i.destroy (o', s)).1 in
          t.made ≡ t.taken + bit (mounted o' && detached o')
  nothing_left us o w p m e =
      ground
        (arith, balance_all us (o, (w, no_calls)) p, cleared (use_all i us (o, (w, no_calls))) e)
