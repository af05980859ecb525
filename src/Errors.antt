-- ===== src/Errors.antt =====
-- sex/detail/exceptions, sex/util/source_location.cpp and sex/util/panic.cpp: what an exception
-- says, and how `Panic` and SEX_ASSERT throw.
use Prim.Native.String.{◌++◌}
use sex.Common.{ℕ, String, [], ◌∷◌, Bool, not, if◌then◌else◌}
use sex.Runtime.{
  Exception, panic_exception, error_code, error_message, message_exception, filesystem_error,
  standard, foreign, Action, throw, pure, SourceLocation, Sys, str, num,
}

module _ {W : Type 0} (sys : Sys W) where
  open sys use {format, error_text}

  -- ErrorCodeSyscallError::GenerateMessage
  generate_message : ℕ → String
  generate_message code =
      format "Error: \"{}\" (error code {})" (str (error_text code) ∷ num code ∷ [])

  -- operator<< on a SourceLocation
  print_location : SourceLocation → String
  print_location l =
      format "{:s}:{:d} in {:s}" (str l.filename ∷ num l.line ∷ str l.function_name ∷ [])

  -- `what()` of each class. The text of a filesystem error is the library's own.
  unfoldable pub what : (ℕ → String) → Exception → String
  unfolding generate_message
  what filesystem_text (panic_exception m) = m
  what filesystem_text (error_code c) = generate_message c
  what filesystem_text (error_message m c) = m
  what filesystem_text (message_exception m) = m
  what filesystem_text (filesystem_error c) = filesystem_text c
  what filesystem_text (standard m) = m
  what filesystem_text foreign = ""

  -- The exception of Panic, with the stream's pieces in the order in which they are inserted.
  pub panic_failure : String → SourceLocation → Exception
  unfolding print_location
  panic_failure message location =
      panic_exception ("Panic at " ++ print_location location ++ ": \"" ++ message ++ "\"")

  -- Panic
  unfoldable pub panic : {S A : Type 0} → String → SourceLocation → Action S A
  unfolding panic_failure
  panic message location = throw (panic_failure message location)

  -- The exception of a SEX_ASSERT that is not satisfied.
  abbrev pub assert_failure : String → SourceLocation → Exception
  assert_failure text location =
      panic_failure (format "{:s} is not satisfied" (str text ∷ [])) location

  -- SEX_ASSERT(expr), with the text of `expr`.
  unfoldable pub sex_assert : {S : Type 0} → String → Bool → SourceLocation → Action S (Unit {0})
  unfolding panic
  sex_assert text expr location =
      if not expr then panic (format "{:s} is not satisfied" (str text ∷ [])) location else pure tt
