-- ===== src/Runtime.antt =====
-- How a C++ function ends and what it does to the state around it, for every other file; the
-- exceptions of sex/detail/exceptions and std, sex/util/source_location.hpp, and the functions of
-- libc, fmt and the kernel that all parts call.
use sex.Common.{ℕ, String, List, Bool, true, false}
use sex.Common.Int.{ℤ}

-- What is thrown. `panic` is `PanicException`, `error_code` an `ErrorCodeSyscallError` with its
-- code, `error_message` an `ErrorMessageSyscallError` with its text and code, `message` a
-- `MessageException`, `filesystem` a `std::filesystem::filesystem_error`, `standard` any other
-- class derived from `std::exception`, and `foreign` a value of any other type.
pub data Exception : Type 0 where
  panic_exception : String → Exception
  error_code : ℕ → Exception
  error_message : String → ℕ → Exception
  message_exception : String → Exception
  filesystem_error : ℕ → Exception
  standard : String → Exception
  foreign : Exception

-- A call returns, throws, ends the program by `std::terminate` or a failed `assert`, or ends the
-- process by `_exit`.
pub data Outcome {ℓ} (A : Type ℓ) : Type ℓ where
  done : A → Outcome A
  thrown : Exception → Outcome A
  terminated : Outcome A
  exited : ℕ → Outcome A

-- Code that reads and changes a state: what was written stays written when it throws.
abbrev pub Action {ℓ} : Type 0 → Type ℓ → Type ℓ
Action S A = S → Outcome A × S

-- A member function: the object is part of the state.
abbrev pub Method : Type 0 → Type 0 → Type 0 → Type 0
Method O W A = Action (O × W) A

abbrev pub pure : {S A : Type 0} → A → Action S A
pure a s = (done a, s)

abbrev pub throw : {S A : Type 0} → Exception → Action S A
throw e s = (thrown e, s)

infixl 5 ◌>>=◌ ◌>>◌
abbrev pub ◌>>=◌ : {S A B : Type 0} → Action S A → (A → Action S B) → Action S B
◌>>=◌ m f s =
    let (r, s') = m s in
    elim r [
      | done a ↦ f a s'
      | thrown e ↦ (thrown e, s')
      | terminated ↦ (terminated, s')
      | exited n ↦ (exited n, s')
    ]

abbrev pub ◌>>◌ : {S A B : Type 0} → Action S A → Action S B → Action S B
m >> k = m >>= λ _. k

-- A call that always returns.
abbrev pub perform : {S A : Type 0} → (S → A × S) → Action S A
perform f s = let (a, s') = f s in (done a, s')

-- A member function's view of its object, and of what lies outside it.
abbrev pub this : {O W : Type 0} → Method O W O
this (o, w) = (done o, (o, w))

abbrev pub set_this : {O W : Type 0} → O → Method O W (Unit {0})
set_this o (_, w) = (done tt, (o, w))

abbrev pub outside : {O W A : Type 0} → Action W A → Method O W A
outside m (o, w) = let (r, w') = m w in (r, (o, w'))

-- A member call on a local object, which is what remains of it.
abbrev pub on_local : {O W : Type 0} → O → Method O W (Unit {0}) → Action W O
on_local o m w =
    let (r, (o', w')) = m (o, w) in
    elim r [
      | done _ ↦ (done o', w')
      | thrown e ↦ (thrown e, w')
      | terminated ↦ (terminated, w')
      | exited n ↦ (exited n, w')
    ]

-- `assert(b)`, in a build where assertions are on.
abbrev pub assert : {S : Type 0} → Bool → Action S (Unit {0})
assert true s = (done tt, s)
assert false s = (terminated, s)

-- A `noexcept` function, destructors included: an exception that would leave it ends the program.
abbrev pub noexcept : {S A : Type 0} → Action S A → Action S A
noexcept m s =
    let (r, s') = m s in
    elim r [
      | done a ↦ (done a, s')
      | thrown e ↦ (terminated, s')
      | terminated ↦ (terminated, s')
      | exited n ↦ (exited n, s')
    ]

-- `if (b) m`
abbrev pub when : {S : Type 0} → Bool → Action S (Unit {0}) → Action S (Unit {0})
when true m = m
when false m = pure tt

-- SourceLocation: `at line function filename` is what `SourceLocation::Current` gives there.
pub record SourceLocation : Type 0 where
  pub line : ℕ
  pub function_name : String
  pub filename : String

abbrev pub at : ℕ → String → String → SourceLocation
at line function filename = record { line = line; function_name = function; filename = filename }

-- An argument of `fmt::format`.
pub data Arg : Type 0 where
  str : String → Arg
  num : ℕ → Arg
  int : ℤ → Arg

-- The value that a system call returns, and the `errno` that it leaves.
pub record Reply : Type 0 where
  pub value : ℤ
  pub errno : ℕ

-- A system call, in a world `W` that nothing is assumed of.
abbrev pub Syscall : Type 0 → Type 0
Syscall W = W → Reply × W

-- What every part calls and the repository does not contain: `fmt::format`, `strerror`,
-- `std::error_code::message`, and the system call close.
pub record Sys (W : Type 0) : Type 0 where
  pub format : String → List Arg → String
  pub strerror : ℕ → String
  pub error_text : ℕ → String
  pub close : ℤ → Syscall W

-- The outcome is a PanicException, with whatever text.
abbrev pub Panics {ℓ} : {A : Type ℓ} → Outcome A → Type 0
Panics (thrown (panic_exception m)) = Unit
Panics _ = ⊥

-- The call ended with an exception.
abbrev pub Throws {ℓ} : {A : Type ℓ} → Outcome A → Type 0
Throws (thrown e) = Unit
Throws _ = ⊥
