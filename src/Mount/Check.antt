-- ===== src/Mount/Check.antt =====
-- What CheckAndSetupDestination accepts (sex/util/mount/bind.hpp).
use text.Mathlib.Text.{◌==◌ as str_eq}
use text.Mathlib.TextEquality.{eq_iff}
use sex.Common.{String, true, false, ◌≡◌, ◌≢◌, ◌↔◌, ◌⊎◌, refl, arith}
use sex.Runtime.{done, message_exception}
use sex.Result.{ok, error}
use sex.Mount.{is_not_found, is_directory, MountCalls}
use sex.Mount.Bind.{file_functions, directory_functions, source_not_found}

-- The texts of the errors differ.
text_ne : (a b : String) → str_eq a b ≡ false → message_exception a ≢ message_exception b
text_ne a b h e = cc (h, (eq_iff a b).1 (cc e))

module _ {W : Type 0} (k : MountCalls W) (source destination : String) (w : W) where
  open k use {status, create_directories, open_output, parent_path}

  -- FileBindFunctions accept exactly a source whose status is known and which exists and is no
  -- directory, for a destination whose parent directories exist or could be made and which could
  -- be opened for writing.
  pub file_functions_ok :
      ((file_functions k source destination w).0 ≡ done (ok tt))
      ↔ ((status source w).0.1 ≡ 0)
        × (is_not_found (status source w).0.0 ≡ false)
        × (is_directory (status source w).0.0 ≡ false)
        × ((create_directories (parent_path destination) (status source w).1).0 ≡ 0)
        × ((open_output destination
              (create_directories (parent_path destination) (status source w).1).1).0
            ≡ true)
  unfolding file_functions
  file_functions_ok = (λ e. ground arith, λ e. ground arith)

  -- DirectoryBindFunctions accept exactly a source whose status is known and which is a directory,
  -- for a destination whose directories exist or could be made.
  pub directory_functions_ok :
      ((directory_functions k source destination w).0 ≡ done (ok tt))
      ↔ ((status source w).0.1 ≡ 0)
        × (is_not_found (status source w).0.0 ≡ false)
        × (is_directory (status source w).0.0 ≡ true)
        × ((create_directories destination (status source w).1).0 ≡ 0)
  unfolding directory_functions
  directory_functions_ok = (λ e. ground arith, λ e. ground arith)

  -- std::filesystem::status sets the error code whenever it reports that the file was not found
  -- (the hypothesis: it was found, or the code is set). Then neither function ever answers
  -- "Source not found": a missing source gives the error code.
  pub never_source_not_found :
      (is_not_found (status source w).0.0 ≡ false) ⊎ ((status source w).0.1 ≢ 0)
      → ((file_functions k source destination w).0 ≢ done (error source_not_found))
        × ((directory_functions k source destination w).0 ≢ done (error source_not_found))
  unfolding file_functions directory_functions
  never_source_not_found h = (
    λ e. ground (
      arith,
      text_ne "Source is a directory" "Source not found" refl,
      text_ne "Unable to create or open destination" "Source not found" refl,
    ),
    λ e. ground (arith, text_ne "Source is not a directory" "Source not found" refl),
  )
