-- ===== src/Cgroup/Stats.antt =====
-- The statistics of a group, from the file to CpuUsage (sex/cgroup_controller.cpp).
use text.Mathlib.Text.{◌==◌ as str_eq}
use sex.Common.{
  ℕ, String, true, false, if◌then◌else◌, List, [], ◌∷◌, Option, none, some, ◌≡◌, ◌⊎◌, inl, inr,
  refl, arith, Bool-cases, ◌∙◌, ap, sym,
}
use sex.Runtime.{Action, done, Panics}
use sex.Cgroup.{no_limit, CgroupCalls, CgroupController, get_controller_path}
use sex.Cgroup.Control.{to_i64, get_cpu_usage}
use sex.Cgroup.Read.{FlatMap, contains, value_at, read_from, read_flat_keyed_file, flat_value}

-- Two words of a flat keyed file, and the number that the second one means.
pub record Line : Type 0 where
  pub key : String
  pub word : String
  pub value : ℕ

abbrev pub words_of : List Line → List String
words_of [] = []
words_of (l ∷ lines) = l.key ∷ l.word ∷ words_of lines

-- The last value under a key, after a first guess.
pub last_value : List Line → String → Option ℕ → Option ℕ
last_value [] key d = d
last_value (l ∷ lines) key d = last_value lines key (if str_eq l.key key then some l.value else d)

abbrev stored : List Line → FlatMap → FlatMap
stored [] m = m
stored (l ∷ lines) m = stored lines ((l.key, l.value) ∷ m)

module _ {W : Type 0} (stoull : String → Action W ℕ) where
  -- A word means its number: `max` the greatest one, and any other what std::stoull makes of it,
  -- which must not throw.
  abbrev Means : Line → Type 0
  Means l =
      (str_eq l.word "max" ≡ true) × (l.value ≡ no_limit)
      ⊎ (str_eq l.word "max" ≡ false) × ((w : W) → stoull l.word w ≡ (done l.value, w))

  abbrev AllRead : List Line → Type 0
  AllRead [] = Unit
  AllRead (l ∷ lines) = Means l × AllRead lines

  flat_value_lem : (l : Line) (w : W) → Means l → flat_value stoull l.word w ≡ (done l.value, w)
  unfolding flat_value
  flat_value_lem l w (inl (e, top)) = rw e (ap (λ m. (done m, w)) (sym top))
  flat_value_lem l w (inr (e, reads)) = rw e (reads w)

  read_from-words_of :
      (lines : List Line) (m : FlatMap) (w : W)
      → AllRead lines
      → read_from stoull m (words_of lines) w ≡ (done (stored lines m), w)
  unfolding read_from
  read_from-words_of [] m w h = refl
  read_from-words_of (l ∷ lines) m w h =
      ground (arith, flat_value_lem l w h.0, read_from-words_of lines ((l.key, l.value) ∷ m) w h.1)

find : FlatMap → String → Option ℕ
find [] key = none
find ((name, n) ∷ m) key = if str_eq name key then some n else find m key

find-stored :
    (lines : List Line) (m : FlatMap) (key : String)
    → find (stored lines m) key ≡ last_value lines key (find m key)
unfolding find last_value
find-stored [] m key = refl
find-stored (l ∷ lines) m key = find-stored lines ((l.key, l.value) ∷ m) key

found_cases :
    {S : Type 0} (m : FlatMap) (key : String) (s : S)
    → (find m key ≡ none) × (contains m key ≡ false)
      ⊎ ((n : ℕ) × (find m key ≡ some n)
          × (contains m key ≡ true)
          × (value_at m key s ≡ (done n, s)))
unfolding find contains value_at
found_cases [] key s = inl (refl, refl)
found_cases ((name, n) ∷ m) key s = elim (Bool-cases (str_eq name key)) [
  | inl e ↦ inr (n, rw e refl, rw e refl, rw e refl)
  | inr e ↦ elim (found_cases m key s) [
    | inl r ↦ inl (rw e r.0, rw e r.1)
    | inr r ↦ inr (r.0, rw e r.1, rw e r.2, rw e r.3)
  ]
]

module _ {W : Type 0} (k : CgroupCalls W) (c : CgroupController) (w : W) where
  open k use {stoull, read_words}

  -- If cpu.stat holds some lines of a key and a word, each word `max` or one that std::stoull makes
  -- a number of without throwing: `getCpuUsage` returns the last value under each of system_usec,
  -- user_usec and usage_usec as a signed count of 64 bits (so that the greatest number, which `max`
  -- stands for, becomes -1, and a number from 2^63 on a negative one), and panics if one of the
  -- three keys is missing.
  pub get_cpu_usage_cases :
      (lines : List Line) (w' : W)
      → read_words (get_controller_path k c "cpu.stat") w ≡ (words_of lines, w')
      → AllRead stoull lines
      → ((system user total : ℕ) × (last_value lines "system_usec" none ≡ some system)
          × (last_value lines "user_usec" none ≡ some user)
          × (last_value lines "usage_usec" none ≡ some total)
          × (get_cpu_usage k c w ≡ (
            done (record { system = to_i64 system; user = to_i64 user; total = to_i64 total }),
            w',
          )))
        ⊎ ((last_value lines "system_usec" none ≡ none)
            ⊎ (last_value lines "user_usec" none ≡ none)
            ⊎ (last_value lines "usage_usec" none ≡ none))
          × Panics (get_cpu_usage k c w).0
  unfolding get_cpu_usage read_flat_keyed_file find
  get_cpu_usage_cases lines w' e h =
      let m = stored lines [] in
      let read = read_from-words_of stoull lines [] w' h in
      let last_of = find-stored lines [] in
      elim (found_cases m "system_usec" w') [
        | inl a ↦ inr (inl (sym (last_of "system_usec") ∙ a.0), ground (arith, e, read, a.1))
        | inr a ↦ elim (found_cases m "user_usec" w') [
          | inl b ↦ inr (inr (inl (sym (last_of "user_usec") ∙ b.0)), ground (arith, e, read, b.1))
          | inr b ↦ elim (found_cases m "usage_usec" w') [
            | inl t ↦
                inr (inr (inr (sym (last_of "usage_usec") ∙ t.0)), ground (arith, e, read, t.1))
            | inr t ↦ inl (
              a.0,
              b.0,
              t.0,
              sym (last_of "system_usec") ∙ a.1,
              sym (last_of "user_usec") ∙ b.1,
              sym (last_of "usage_usec") ∙ t.1,
              ground (arith, e, read, a.2, b.2, t.2, a.3, b.3, t.3),
            )
          ]
        ]
      ]
