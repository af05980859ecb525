-- ===== src/Mount/Bind.antt =====
-- sex/util/mount/bind.hpp: bind mounts of files and of directories.
use sex.Common.{ℕ, String, Bool, true, false, not, ◌&&◌, ◌^◌, ◌==◌, if◌then◌else◌, bit_or, bit_xor}
use sex.Common.Bits.{test_bit}
use sex.Runtime.{
  Action, Method, Exception, error_code, message_exception, this, set_this, outside, noexcept,
  perform, when, pure, ◌>>=◌, ◌>>◌, at,
}
use sex.Errors.{sex_assert}
use sex.Result.{Result, ok, error, is_error, ensure, error_from, sex_syscall}
use sex.Mount.{IMount, FileType, is_not_found, is_directory, MountCalls}

abbrev source_is_a_directory : Exception
source_is_a_directory = message_exception "Source is a directory"

abbrev source_is_not_a_directory : Exception
source_is_not_a_directory = message_exception "Source is not a directory"

abbrev pub source_not_found : Exception
source_not_found = message_exception "Source not found"

abbrev unable_to_create_or_open_destination : Exception
unable_to_create_or_open_destination = message_exception "Unable to create or open destination"

-- The flags of mount(2), by their bits.
abbrev pub rdonly_bit : ℕ
rdonly_bit = 0

abbrev pub remount_bit : ℕ
remount_bit = 5

abbrev pub bind_bit : ℕ
bind_bit = 12

abbrev pub rec_bit : ℕ
rec_bit = 14

-- BindImpl::Flags
abbrev no_rec : ℕ
no_rec = 2 ^ rec_bit

abbrev pub allow_write : ℕ
allow_write = 2 ^ rdonly_bit

-- defaultFlags
abbrev pub default_flags : ℕ
default_flags = bit_or (bit_or (2 ^ bind_bit) (2 ^ rec_bit)) (2 ^ rdonly_bit)

abbrev bind_hpp : String
bind_hpp = "sex/util/mount/bind.hpp"

-- The parameter of BindImpl: CheckAndSetupDestination(source, destination).
abbrev pub BindFunctions : Type 0 → Type 0
BindFunctions W = String → String → Action W (Result (Unit {0}))

-- BindImpl
pub record BindImpl : Type 0 where
  pub source : String
  pub destination : String
  pub mount_flags : ℕ
  pub mounted : Bool
  pub detached : Bool

-- BindImpl(source, destination, flags)
unfoldable pub bind_impl : String → String → ℕ → BindImpl
bind_impl source destination flags = record {
  source = source;
  destination = destination;
  mount_flags = bit_xor flags default_flags;
  mounted = false;
  detached = false;
}

-- An early return of an error, or the rest of the function.
abbrev or_return :
    {S A B : Type 0} → Action S (Result A) → (A → Action S (Result B)) → Action S (Result B)
or_return m rest = m >>= λ r. elim r [ ok a ↦ rest a | error e ↦ pure (error e) ]

module _ {W : Type 0} (k : MountCalls W) where
  open k use {sys, status, create_directories, open_output, parent_path, mount_call, umount_call}

  -- What both functions do about the source: an error, or its type.
  source_type : String → Action W (Result FileType)
  source_type source = do
    found ← perform (status source)
    pure (
        if not (found.1 == 0)
        then error (error_code found.1)
        else if is_not_found found.0
        then error source_not_found
        else ok found.0)

  -- create_directories(path, errorCode) and the test of the code.
  directories : String → Action W (Result (Unit {0}))
  directories path = do
    code ← perform (create_directories path)
    pure (if not (code == 0) then error (error_code code) else ok tt)

  -- `std::ofstream(destination.string()).good()` and its test.
  output_opens : String → Action W (Result (Unit {0}))
  output_opens destination = do
    accessed ← perform (open_output destination)
    pure (if not accessed then error unable_to_create_or_open_destination else ok tt)

  -- FileBindFunctions::CheckAndSetupDestination
  unfoldable pub file_functions : BindFunctions W
  unfolding source_type directories output_opens
  file_functions source destination = or_return (source_type source) (λ type.
      if is_directory type
      then pure (error source_is_a_directory)
      else or_return (directories (parent_path destination)) (λ _. output_opens destination))

  -- DirectoryBindFunctions::CheckAndSetupDestination
  unfoldable pub directory_functions : BindFunctions W
  unfolding source_type directories
  directory_functions source destination = or_return (source_type source) (λ type.
      if not (is_directory type)
      then pure (error source_is_not_a_directory)
      else or_return (directories destination) (λ _. pure (ok tt)))

  module _ (setup : BindFunctions W) where
    -- The remount of a read-only bind.
    remount : Method BindImpl W (Result (Unit {0}))
    unfolding sex_syscall error_from is_error
    remount = do
      m ← this
      result ← outside (
          sex_syscall sys
            "::mount(\"none\", destination_.c_str(), NULL, mountFlags_ | MS_REMOUNT, NULL)"
            (mount_call "none" m.destination "" (bit_or m.mount_flags (2 ^ remount_bit)) "")
            (at 92 "mount" bind_hpp))
      if is_error result then error_from sys result else pure (ok tt)

    -- The last lines of `mount`.
    set_mounted : Method BindImpl W (Result (Unit {0}))
    set_mounted = do m ← this; set_this (record m { mounted = true }); pure (ok tt)

    -- `mount`, from its first system call on.
    bind_source : Method BindImpl W (Result (Unit {0}))
    unfolding remount set_mounted sex_syscall error_from is_error
    bind_source = do
      m ← this
      result ← outside (
          sex_syscall sys
            "::mount(source_.c_str(), destination_.c_str(), \"none\", mountFlags_, \"\")"
            (mount_call m.source m.destination "none" m.mount_flags "") (at 87 "mount" bind_hpp))
      if is_error result
          then error_from sys result
          else if test_bit m.mount_flags rdonly_bit
          then or_return remount (λ _. set_mounted)
          else set_mounted

    -- BindImpl::mount
    unfoldable pub mount : Method BindImpl W (Result (Unit {0}))
    unfolding bind_source sex_assert error_from is_error
    mount = do
      m ← this
      sex_assert sys "!mounted_ && !detached_" (not m.mounted && not m.detached)
          (at 83 "mount" bind_hpp)
      check ← outside (setup m.source m.destination)
      if is_error check then error_from sys check else bind_source

  -- BindImpl::unmount
  unfoldable pub unmount : Method BindImpl W (Result (Unit {0}))
  unfolding sex_assert sex_syscall error_from is_error
  unmount = do
    m ← this
    sex_assert sys "mounted_ && !detached_" (m.mounted && not m.detached)
        (at 102 "unmount" bind_hpp)
    result ← outside (
        sex_syscall sys "umount(destination_.c_str())" (umount_call m.destination)
          (at 104 "unmount" bind_hpp))
    if is_error result
        then error_from sys result
        else (set_this (record m { mounted = false }) >> pure (ok tt))

  -- BindImpl::detach
  unfoldable pub detach : Method BindImpl W (Unit {0})
  unfolding sex_assert
  detach = do
    m ← this
    sex_assert sys "!detached_" (not m.detached) (at 114 "detach" bind_hpp)
    set_this (record m { detached = true })

  -- ~BindImpl
  unfoldable pub destroy : Method BindImpl W (Unit {0})
  unfolding unmount ensure
  destroy = do m ← this; noexcept (when (not m.detached && m.mounted) (unmount >>= ensure))

  unfoldable pub bind_mount : BindFunctions W → IMount BindImpl W
  unfolding mount unmount detach destroy
  bind_mount setup = record {
    mount = mount setup;
    unmount = unmount;
    detach = detach;
    destroy = destroy;
  }
