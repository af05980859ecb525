-- ===== src/Mount/Tests.antt =====
-- A world that counts what is mounted: every bind succeeds, and a remount fails where the test says.
use sex.Common.{◌∷◌, []}
use sex.Mount.Ledger.{mounting, unmounting, detaching, use_all, no_calls, tallied}
use sex.Mount.Ledger.Objects.{bind_nothing_left, file_functions-SetupKeeps}
use sex.Common.{ℕ, ◌+◌, ◌-◌, true, false, ◌≡◌, refl, arith, if◌then◌else◌}
use sex.Common.Int.{pos, minus_one}
use sex.Common.Bits.{test_bit}
use sex.Runtime.{done, Reply}
use sex.Result.{error, failure}
use sex.Mount.{MountCalls, regular, directory, FileType}
use sex.Mount.Bind.{
  BindImpl, bind_impl, file_functions, directory_functions, mount, destroy, bind_mount, remount_bit,
}
use sex.Mount.Life.{remount_fails, remount_text, remount_at}
use sex.Mount.TmpFs.{tmpfs_mount}
use sex.Mount.Contract.{
  Contract, bind_phase, tmpfs_phase, bind_mount-Contract, tmpfs_mount-Contract,
}

abbrev fine : Reply
fine = record { value = pos 0; errno = 0 }

abbrev refused : Reply
refused = record { value = minus_one; errno = 1 }

-- The world is the number of mounts in place; the type of every path and the reply to a remount
-- are given.
abbrev counting : FileType → ℕ → Reply → MountCalls ℕ
counting type code remounted = record {
  sys = record {
    format = λ f args. f;
    strerror = λ n. "";
    error_text = λ n. "";
    close = λ fd w. (fine, w);
  };
  status = λ path w. ((type, code), w);
  create_directories = λ path w. (0, w);
  open_output = λ path w. (true, w);
  parent_path = λ path. path;
  mount_call = λ source target type flags options w.
      if test_bit flags remount_bit then (remounted, w) else (fine, w + 1);
  umount_call = λ target w. (fine, w - 1);
}

abbrev file_object : BindImpl
file_object = record {
  source = "/a";
  destination = "/b";
  mount_flags = 20481;
  mounted = false;
  detached = false;
}

file_object_made : bind_impl "/a" "/b" 0 ≡ file_object
unfolding bind_impl
file_object_made = refl

-- Mounting and destroying leaves the world as it was.
mount_then_destroy :
    (destroy
      (counting regular 0 fine)
      (mount
        (counting regular 0 fine)
        (file_functions (counting regular 0 fine))
        (file_object, 5)).1).1.1
    ≡ 5
unfolding mount destroy file_functions
mount_then_destroy = refl

remount_fails_example :
    let k = counting regular 0 refused in
    (mount k (file_functions k) (file_object, 5)
      ≡ (done (error (failure k.sys remount_text refused remount_at)), (file_object, 6)))
    × (destroy k (file_object, 6) ≡ (done tt, (file_object, 6)))
unfolding file_functions
remount_fails_example =
    remount_fails (counting regular 0 refused) (file_functions (counting regular 0 refused))
      file_object 5 fine refused 5 6 6 refl refl refl refl refl refl (λ e. ground arith) refl

bind_mount-Contract_example :
    Contract
      (bind_mount (counting directory 0 fine) (directory_functions (counting directory 0 fine)))
      bind_phase
bind_mount-Contract_example =
    bind_mount-Contract (counting directory 0 fine)
      (directory_functions (counting directory 0 fine))

abbrev k_file : MountCalls ℕ
k_file = counting regular 0 fine

tmpfs_mount-Contract_example : Contract (tmpfs_mount k_file) tmpfs_phase
tmpfs_mount-Contract_example = tmpfs_mount-Contract (counting regular 0 fine)

abbrev writable : BindImpl
writable = record file_object { mount_flags = 20480 }

bind_nothing_left_example :
    let i = bind_mount (tallied k_file) (file_functions (tallied k_file)) in
    let (o, s) =
      use_all i
        (mounting ∷ unmounting ∷ mounting ∷ detaching ∷ unmounting ∷ [])
        (writable, (5, no_calls)) in
    let (_, (w, t)) = (i.destroy (o, s)).1 in t.made ≡ t.taken + 1
unfolding bind_mount file_functions use_all
bind_nothing_left_example =
    bind_nothing_left k_file (file_functions (tallied k_file))
      (mounting ∷ unmounting ∷ mounting ∷ detaching ∷ unmounting ∷ []) writable 5
      (file_functions-SetupKeeps k_file) refl refl refl
