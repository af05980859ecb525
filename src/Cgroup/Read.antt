-- ===== src/Cgroup/Read.antt =====
-- ReadFlatKeyedFile (sex/cgroup_controller.cpp), and what it reads.
use text.Mathlib.Text.{◌==◌ as str_eq}
use sex.Common.{ℕ, String, ◌^◌, ◌-◌, Bool, true, false, if◌then◌else◌, List, [], ◌∷◌}
use sex.Runtime.{Action, standard, throw, pure, ◌>>=◌}

-- std::map<std::string, uint64_t>: what was stored last comes first.
abbrev pub FlatMap : Type 0
FlatMap = List (String × ℕ)

-- contains
unfoldable pub contains : FlatMap → String → Bool
contains [] key = false
contains ((name, n) ∷ m) key = if str_eq name key then true else contains m key

-- at, which throws on a missing key.
unfoldable pub value_at : {S : Type 0} → FlatMap → String → Action S ℕ
value_at [] key = throw (standard "map::at")
value_at ((name, n) ∷ m) key = let rest = value_at m key in if str_eq name key then pure n else rest

module _ {W : Type 0} (stoull : String → Action W ℕ) where
  -- The value of a line, `max` for the greatest number.
  unfoldable pub flat_value : String → Action W ℕ
  flat_value v = if str_eq v "max" then pure (2 ^ 64 - 1) else stoull v

  -- The loop, on the words of the stream; a last word without a second ends it.
  unfoldable pub read_from : FlatMap → List String → Action W FlatMap
  unfolding flat_value
  read_from result [] = pure result
  read_from result (key ∷ []) = pure result
  read_from result (key ∷ v ∷ words) =
      flat_value v >>= λ value. read_from ((key, value) ∷ result) words

  -- ReadFlatKeyedFile
  unfoldable pub read_flat_keyed_file : List String → Action W FlatMap
  unfolding read_from
  read_flat_keyed_file words = read_from [] words
