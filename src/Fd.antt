-- ===== src/Fd.antt =====
-- sex/util/file_descriptor.hpp and sex/util/fd_holder.{hpp,cpp}: descriptors, and the objects that
-- own one and close it. A holder's methods act on the object and on the world around it.
pub mod Objects
pub mod Ownership
pub mod Tests
use sex.Common.{ℕ, String, Bool, not}
use sex.Common.Int.{ℤ, minus_one, ◌==ℤ◌}
use sex.Runtime.{
  Method, Action, this, set_this, outside, noexcept, when, pure, ◌>>=◌, ◌>>◌, at, Sys,
}
use sex.Result.{sex_syscall, ensure}

-- FileDescriptor: a number, or `None`.
pub record FileDescriptor : Type 0 where
  pub number : ℤ

abbrev none_fd : FileDescriptor
none_fd = record { number = minus_one }

-- FileDescriptor::operator bool
abbrev is_set : FileDescriptor → Bool
is_set d = not (d.number ==ℤ minus_one)

-- FileDescriptor::getInt, and operator int
abbrev pub get_int : FileDescriptor → ℤ
get_int d = d.number

-- FileDescriptor::reset: the number that it held, and the descriptor as it is left.
exchange : ℤ → FileDescriptor → ℤ × FileDescriptor
exchange fd d = (d.number, record { number = fd })

-- FdHolder
pub record FdHolder : Type 0 where
  pub fd : FileDescriptor

-- FdHolder(int)
abbrev pub holder : ℤ → FdHolder
holder fd = record { fd = record { number = fd } }

-- FdHolder()
abbrev pub empty_holder : FdHolder
empty_holder = record { fd = none_fd }

-- FdHolder::swap: this object and the other, as they are left.
abbrev pub swap : FdHolder → FdHolder → FdHolder × FdHolder
swap this_one other = (other, this_one)

-- FdHolder(FdHolder&&): the new object and the one moved from.
unfoldable pub move_construct : FdHolder → FdHolder × FdHolder
move_construct other = swap empty_holder other

-- FdHolder::operator=(FdHolder&&), of two different objects.
pub move_assign : FdHolder → FdHolder → FdHolder × FdHolder
move_assign this_one other = swap this_one other

module _ {W : Type 0} (sys : Sys W) where
  -- FdHolder::reset
  unfoldable pub reset : FileDescriptor → Method FdHolder W (Unit {0})
  unfolding sex_syscall ensure
  reset new_fd = do
    h ← this
    when (is_set h.fd) (
        outside (
          sex_syscall sys "close(fd_.getInt())" (sys.close (get_int h.fd))
            (at 33 "reset" "sex/util/fd_holder.cpp")
          >>= ensure))
    set_this (record { fd = new_fd })

  -- FdHolder::~FdHolder
  unfoldable pub destroy : Method FdHolder W (Unit {0})
  unfolding reset
  destroy = noexcept (reset none_fd)

-- FdHolder::release
pub release : {W : Type 0} → Method FdHolder W FileDescriptor
unfolding exchange
release = do h ← this; set_this (record { fd = (exchange minus_one h.fd).1 }); pure h.fd
