-- ===== src/Mount.antt =====
-- sex/util/mount/mount.hpp: what a mount object can do, and what its classes call.
pub mod Bind
pub mod TmpFs
pub mod Check
pub mod Life
pub mod Contract
pub mod Ledger
mod Tests
use sex.Common.{ℕ, String, Bool, ◌==◌}
use sex.Runtime.{Method, Syscall, Sys}
use sex.Result.{Result}

-- IMount, implemented by objects of type O.
pub record IMount (O W : Type 0) : Type 0 where
  pub mount : Method O W (Result (Unit {0}))
  pub unmount : Method O W (Result (Unit {0}))
  pub detach : Method O W (Unit {0})
  pub destroy : Method O W (Unit {0})

-- std::filesystem::file_type
pub data FileType : Type 0 where
  none_type not_found regular directory symlink block character fifo socket unknown : FileType

abbrev pub is_not_found : FileType → Bool
is_not_found not_found = Bool.true
is_not_found _ = Bool.false

abbrev pub is_directory : FileType → Bool
is_directory directory = Bool.true
is_directory _ = Bool.false

-- std::filesystem::status and create_directories with the error code that they set, 0 for none;
-- `std::ofstream(path).good()`; `path::parent_path`; and mount(2), with its source, target, type,
-- flags and data, where "" stands for a null pointer, and umount.
pub record MountCalls (W : Type 0) : Type 0 where
  pub sys : Sys W
  pub status : String → W → (FileType × ℕ) × W
  pub create_directories : String → W → ℕ × W
  pub open_output : String → W → Bool × W
  pub parent_path : String → String
  pub mount_call : String → String → String → ℕ → String → Syscall W
  pub umount_call : String → Syscall W
