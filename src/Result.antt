-- ===== src/Result.antt =====
-- sex/util/result.hpp: `Result<T>`, a value or the exception that stands in its place, and
-- sex/util/syscall.hpp: the result of a system call.
pub mod Laws
mod Tests
use sex.Common.{ℕ, String, [], ◌∷◌, Bool, true, false, not, if◌then◌else◌}
use sex.Common.Int.{ℤ, minus_one, pos, ◌==ℤ◌}
use sex.Runtime.{
  Exception, error_message, standard, done, thrown, terminated, exited, Action, pure, throw, ◌>>=◌,
  ◌>>◌, SourceLocation, at, Syscall, Reply, Sys, str, num,
}
use sex.Errors.{sex_assert}

-- `std::variant<TResult, std::exception_ptr>`
pub data Result (A : Type 0) : Type 0 where
  ok : A → Result A
  error : Exception → Result A

abbrev result_hpp : String
result_hpp = "sex/util/result.hpp"

-- What `std::get` throws when the variant holds the other alternative.
abbrev bad_variant_access : Exception
bad_variant_access = standard "bad_variant_access"

module _ {A : Type 0} where
  unfoldable pub is_error : Result A → Bool
  is_error (ok a) = false
  is_error (error e) = true

  unfoldable is_ok : Result A → Bool
  is_ok (ok a) = true
  is_ok (error e) = false

  get_error : {S : Type 0} → Result A → Action S Exception
  get_error (ok a) = throw bad_variant_access
  get_error (error e) = pure e

  -- `get<TResult>(result_)`
  get_value : {S : Type 0} → Result A → Action S A
  get_value (ok a) = pure a
  get_value (error e) = throw bad_variant_access

  unfoldable pub ensure : {S : Type 0} → Result A → Action S (Unit {0})
  unfolding is_error get_error
  ensure r = if is_error r then (get_error r >>= throw) else pure tt

  unfoldable pub unwrap : {S : Type 0} → Result A → Action S A
  unfolding ensure get_value
  unwrap r = do ensure r; get_value r

-- Result<U>::ErrorFrom(r)
module _ {W : Type 0} (sys : Sys W) where
  unfoldable pub error_from : {S A B : Type 0} → Result A → Action S (Result B)
  unfolding is_error get_error sex_assert
  error_from r = do
    sex_assert sys "r.isError()" (is_error r) (at 94 "ErrorFrom" result_hpp)
    e ← get_error r
    pure (error e)

module _ {W : Type 0} (sys : Sys W) {S A B : Type 0} where
  -- Result::then, the branch for a callable that returns a plain value: fmap.
  unfoldable pub then_value : (A → Action S B) → Result A → Action S (Result B)
  unfolding error_from unwrap is_error
  then_value f r = if is_error r then error_from sys r else do a ← unwrap r; b ← f a; pure (ok b)

  -- Result::then, the branch for a callable that returns a Result: bind.
  then_result : (A → Action S (Result B)) → Result A → Action S (Result B)
  unfolding error_from unwrap is_error
  then_result f r = if is_error r then error_from sys r else do a ← unwrap r; f a

module _ {W : Type 0} (sys : Sys W) where
  -- Result::discardValue
  unfoldable pub discard_value : {S A : Type 0} → Result A → Action S (Result (Unit {0}))
  unfolding then_value
  discard_value r = then_value sys (λ _. pure tt) r

-- The types that the concept `CResult` is asked about: `remove_cvref T` is the class
-- `std::remove_cvref<T>` itself, not its member `type`, which is T without reference and qualifiers.
pub data CxxType : Type 0 where
  plain : String → CxxType
  result : CxxType → CxxType
  reference const_of : CxxType → CxxType
  remove_cvref : CxxType → CxxType

-- IsResult<T>
is_result : CxxType → Bool
is_result (result t) = true
is_result _ = false

-- CResult<T> is IsResult<std::remove_cvref<T>>.
c_result : CxxType → Bool
unfolding is_result
c_result t = is_result (remove_cvref t)

-- What `then` is called with, by the type U that the callable returns, and what it returns.
pub data Callable (S A B : Type 0) : Type 0 where
  gives : (A → Action S B) → Callable S A B
  gives_result : (A → Action S (Result B)) → Callable S A B

pub data Returned (B : Type 0) : Type 0 where
  flat : Result B → Returned B
  nested : Result (Result B) → Returned B

type_of : {S A B : Type 0} → String → Callable S A B → CxxType
type_of b (gives f) = plain b
type_of b (gives_result f) = result (plain b)

module _ {W : Type 0} (sys : Sys W) {S A B : Type 0} where
  -- Result::then: `if constexpr (CResult<U>)`, with the name of the type B.
  pub and_then : String → Callable S A B → Result A → Action S (Returned B)
  unfolding c_result type_of then_value then_result
  and_then b (gives f) r = then_value sys f r >>= λ q. pure (flat q)
  and_then b (gives_result f) r =
      let callable : Callable S A B = gives_result f in
      if c_result (type_of b callable)
      then (then_result sys f r >>= λ q. pure (flat q))
      else (then_value sys f r >>= λ q. pure (nested q))

module _ {W : Type 0} (sys : Sys W) where
  open sys use {format, strerror}

  -- The text of a failed call.
  pub failure_message : String → Reply → SourceLocation → String
  failure_message expression reply location =
      format "{:s} failed: {:s} ({:d})\nAt {:s}:{:d} in function {:s}" (
        str expression
        ∷ str (strerror reply.errno)
        ∷ num reply.errno
        ∷ str location.filename
        ∷ num location.line
        ∷ str location.function_name
        ∷ [])

  -- The exception that a failed call leads to.
  abbrev pub failure : String → Reply → SourceLocation → Exception
  failure expression reply location =
      error_message (failure_message expression reply location) reply.errno

  -- SyscallResult, with the text of the call, its reply and the place of the macro SEX_SYSCALL.
  unfoldable pub syscall_result : String → Reply → SourceLocation → Result ℤ
  syscall_result expression reply location =
      if reply.value ==ℤ minus_one
      then error (failure expression reply location)
      else ok reply.value

  -- SEX_SYSCALL(expr)
  unfoldable pub sex_syscall : String → Syscall W → SourceLocation → Action W (Result ℤ)
  unfolding syscall_result
  sex_syscall text call location w =
      let (reply, w') = call w in (done (syscall_result text reply location), w')
