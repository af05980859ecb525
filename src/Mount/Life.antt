-- ===== src/Mount/Life.antt =====
-- The life of a bind mount object (sex/util/mount/bind.hpp).
use sex.Common.{
  ℕ, ◌^◌, String, true, false, not, ◌&&◌, xor, ◌≡◌, ◌≢◌, ◌⊎◌, inl, inr, ◌∙◌, ap₂, ◌||◌, arith,
  Bool-cases, if◌then◌else◌, ◌==◌, bit_or,
}
use sex.Common.Int.{minus_one, ◌==ℤ◌, ==ℤ→eq, ==ℤ→ne, ==ℤ_ne}
use sex.Common.Bits.{test_bit, test_bit-bit_xor, test_bit-bit_or, test_bit-pow}
use sex.Runtime.{Reply, SourceLocation, done, terminated, at}
use sex.Result.{ok, error, failure}
use sex.Mount.{MountCalls}
use sex.Mount.Bind.{
  BindImpl, BindFunctions, bind_impl, default_flags, rdonly_bit, remount_bit, bind_bit, rec_bit,
  mount, destroy,
}

default_flags_bits :
    (j : ℕ) → test_bit default_flags j ≡ ((bind_bit == j || rec_bit == j) || rdonly_bit == j)
default_flags_bits j =
    test_bit-bit_or (bit_or (2 ^ bind_bit) (2 ^ rec_bit)) (2 ^ rdonly_bit) j
    ∙ ap₂ ◌||◌
        (test_bit-bit_or (2 ^ bind_bit) (2 ^ rec_bit) j
          ∙ ap₂ ◌||◌ (test_bit-pow bind_bit j) (test_bit-pow rec_bit j))
        (test_bit-pow rdonly_bit j)

-- The flags that `mount` is given are the caller's with the bits of MS_BIND, MS_REC and MS_RDONLY
-- turned round: the mount is a bind, it is recursive unless NO_REC is asked for, and read-only
-- unless ALLOW_WRITE is; every other flag is passed on.
pub mount_flags_bits :
    (source destination : String) (flags j : ℕ)
    → test_bit (bind_impl source destination flags).mount_flags j ≡ (
        if (bind_bit == j || rec_bit == j) || rdonly_bit == j
        then not (test_bit flags j)
        else test_bit flags j)
unfolding bind_impl xor
mount_flags_bits source destination flags j =
    rw (test_bit-bit_xor flags default_flags j, default_flags_bits j) (ground arith)

abbrev pub remount_text : String
remount_text = "::mount(\"none\", destination_.c_str(), NULL, mountFlags_ | MS_REMOUNT, NULL)"

abbrev pub remount_at : SourceLocation
remount_at = at 92 "mount" "sex/util/mount/bind.hpp"

module _ {W : Type 0} (k : MountCalls W) (setup : BindFunctions W) (m : BindImpl) (w : W) where
  open k use {sys, mount_call, umount_call}

  -- `mount` marks the object as mounted exactly when it returns Ok, and otherwise, however it ends,
  -- leaves the object as it was.
  mount_marks :
      let (r, (m', w')) = mount k setup (m, w) in
      (r ≡ done (ok tt))
        × (m' ≡ record m { mounted = true })
        × (m.mounted ≡ false)
        × (m.detached ≡ false)
      ⊎ (r ≢ done (ok tt)) × (m' ≡ m)
  unfolding mount
  mount_marks = ground arith

  -- If the bind itself succeeds and the read-only remount fails, `mount` returns that error with the
  -- object unmarked, although the bind is in place and is not read-only; the destructor then leaves
  -- it in place: it makes no system call.
  pub remount_fails :
      (first second : Reply) (w₁ w₂ w₃ : W)
      → m.mounted ≡ false
      → m.detached ≡ false
      → setup m.source m.destination w ≡ (done (ok tt), w₁)
      → test_bit m.mount_flags rdonly_bit ≡ true
      → mount_call m.source m.destination "none" m.mount_flags "" w₁ ≡ (first, w₂)
      → mount_call "none" m.destination "" (bit_or m.mount_flags (2 ^ remount_bit)) "" w₂
        ≡ (second, w₃)
      → first.value ≢ minus_one
      → second.value ≡ minus_one
      → (mount k setup (m, w)
          ≡ (done (error (failure sys remount_text second remount_at)), (m, w₃)))
        × (destroy k (m, w₃) ≡ (done tt, (m, w₃)))
  unfolding mount destroy
  remount_fails first second w₁ w₂ w₃ a b c d p q e f = (ground (arith, ==ℤ_ne _ _ e), ground arith)

  -- The destructor unmounts what is mounted and not detached, and ends the program if that fails;
  -- otherwise it does nothing.
  pub destroy_cases :
      let (reply, w') = umount_call m.destination w in
      (m.mounted ≡ true)
        × (m.detached ≡ false)
        × ((reply.value ≢ minus_one)
              × (destroy k (m, w) ≡ (done tt, (record m { mounted = false }, w')))
            ⊎ (reply.value ≡ minus_one) × (destroy k (m, w) ≡ (terminated, (m, w'))))
      ⊎ ((m.mounted ≡ false) ⊎ (m.detached ≡ true)) × (destroy k (m, w) ≡ (done tt, (m, w)))
  unfolding destroy
  destroy_cases = elim (Bool-cases (m.mounted && not m.detached)) [
    | inl live ↦ elim (Bool-cases ((umount_call m.destination w).0.value ==ℤ minus_one)) [
      | inl e ↦ inl (ground arith, ground arith, inr (==ℤ→eq _ _ e, ground arith))
      | inr e ↦ inl (ground arith, ground arith, inl (==ℤ→ne _ _ e, ground arith))
    ]
    | inr dead ↦ inr (ground arith, ground arith)
  ]
