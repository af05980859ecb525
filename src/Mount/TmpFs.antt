-- ===== src/Mount/TmpFs.antt =====
-- sex/util/mount/tmpfs.hpp: a mount of a new tmpfs of a given size.
use sex.Common.{ℕ, String, [], ◌∷◌, Bool, true, false, not, ◌&&◌, ◌==◌, if◌then◌else◌}
use sex.Runtime.{
  Method, error_code, this, set_this, outside, noexcept, perform, when, pure, ◌>>=◌, ◌>>◌, at, num,
}
use sex.Errors.{sex_assert}
use sex.Result.{Result, ok, error, is_error, ensure, error_from, sex_syscall}
use sex.Mount.{IMount, MountCalls}

-- TmpFsMount
pub record TmpFsMount : Type 0 where
  pub destination : String
  pub size_bytes : ℕ
  pub mounted : Bool
  pub detached : Bool

-- TmpFsMount(destination, sizeBytes)
abbrev pub tmpfs_object : String → ℕ → TmpFsMount
tmpfs_object destination size_bytes = record {
  destination = destination;
  size_bytes = size_bytes;
  mounted = false;
  detached = false;
}

abbrev tmpfs_hpp : String
tmpfs_hpp = "sex/util/mount/tmpfs.hpp"

module _ {W : Type 0} (k : MountCalls W) where
  open k use {sys, create_directories, mount_call, umount_call}

  -- `mount`, from its system call on.
  mount_tmpfs : Method TmpFsMount W (Result (Unit {0}))
  unfolding sex_syscall error_from is_error
  mount_tmpfs = do
    m ← this
    result ← outside (
        sex_syscall sys "::mount(\"tmpfs\", destination_.c_str(), \"tmpfs\", 0, opts.c_str())"
          (mount_call "tmpfs" m.destination "tmpfs" 0
            (sys.format "size={}" (num m.size_bytes ∷ [])))
          (at 26 "mount" tmpfs_hpp))
    if is_error result
        then error_from sys result
        else (set_this (record m { mounted = true }) >> pure (ok tt))

  -- TmpFsMount::mount
  unfoldable pub mount : Method TmpFsMount W (Result (Unit {0}))
  unfolding mount_tmpfs sex_assert
  mount = do
    m ← this
    sex_assert sys "!detached_ && !mounted_" (not m.detached && not m.mounted)
        (at 19 "mount" tmpfs_hpp)
    code ← outside (perform (create_directories m.destination))
    if not (code == 0) then pure (error (error_code code)) else mount_tmpfs

  -- TmpFsMount::unmount
  unfoldable pub unmount : Method TmpFsMount W (Result (Unit {0}))
  unfolding sex_assert sex_syscall error_from is_error
  unmount = do
    m ← this
    sex_assert sys "!detached_ && mounted_" (not m.detached && m.mounted)
        (at 35 "unmount" tmpfs_hpp)
    result ← outside (
        sex_syscall sys "umount(destination_.c_str())" (umount_call m.destination)
          (at 36 "unmount" tmpfs_hpp))
    if is_error result
        then error_from sys result
        else (set_this (record m { mounted = false }) >> pure (ok tt))

  -- TmpFsMount::detach
  unfoldable pub detach : Method TmpFsMount W (Unit {0})
  unfolding sex_assert
  detach = do
    m ← this
    sex_assert sys "!detached_" (not m.detached) (at 45 "detach" tmpfs_hpp)
    set_this (record m { detached = true })

  -- ~TmpFsMount
  unfoldable pub destroy : Method TmpFsMount W (Unit {0})
  unfolding unmount ensure
  destroy = do m ← this; noexcept (when (not m.detached && m.mounted) (unmount >>= ensure))

  unfoldable pub tmpfs_mount : IMount TmpFsMount W
  unfolding mount unmount detach destroy
  tmpfs_mount = record { mount = mount; unmount = unmount; detach = detach; destroy = destroy }
