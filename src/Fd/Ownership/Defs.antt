-- ===== src/Fd/Ownership/Defs.antt =====
-- Who owns which descriptor, and what each statement on holders needs (sex/util/fd_holder.cpp).
use sex.Common.{ℕ, Bool, true, not, ◌&&◌, none, ◌≡◌, ◌≢◌, ◌⊎◌, arith}
use sex.Common.Int.{ℤ, pos, minus_one, ◌==ℤ◌}
use sex.Runtime.{Sys}
use sex.Fd.Objects.{
  Objects, update, Op, constructs, constructs_empty, move_constructs, move_assigns, swaps, resets,
  releases, destroys, held,
}

-- What is documented of close: on an open descriptor it succeeds and closes it, and it touches no
-- other.
pub record Closing {W : Type 0} (sys : Sys W) : Type 0 where
  pub opened : W → ℤ → Bool
  pub close_succeeds : (w : W) (fd : ℤ) → opened w fd ≡ true → (sys.close fd w).0.value ≢ minus_one
  pub close_closes :
      (w : W) (fd g : ℤ)
      → opened w fd ≡ true
      → opened (sys.close fd w).1 g ≡ (opened w g && not (fd ==ℤ g))

-- Less of it: close releases an open descriptor and touches no other, whether it then reports an
-- error or not.
pub record Releasing {W : Type 0} (sys : Sys W) : Type 0 where
  pub opened : W → ℤ → Bool
  pub close_releases :
      (w : W) (fd g : ℤ)
      → opened w fd ≡ true
      → opened (sys.close fd w).1 g ≡ (opened w g && not (fd ==ℤ g))

-- The same calls, with a close that reports no error.
abbrev pub errorless : {W : Type 0} → Sys W → Sys W
errorless sys = record sys {
  close = λ fd w. (record { value = pos 0; errno = 0 }, (sys.close fd w).1);
}

pub nought : pos 0 ≢ minus_one
nought e = ground arith

abbrev pub errorless_closing : {W : Type 0} (sys : Sys W) → Releasing sys → Closing (errorless sys)
errorless_closing sys r = record {
  opened = r.opened;
  close_succeeds = λ w fd e. nought;
  close_closes = r.close_releases;
}

module _ {W : Type 0} (opened : W → ℤ → Bool) where
  -- Every descriptor of a table of holders is open, and stands in it once.
  pub record Owned (table : ℕ → ℤ) (w : W) : Type 0 where
    pub open_held : (i : ℕ) → table i ≢ minus_one → opened w (table i) ≡ true
    pub unique : (i j : ℕ) → table i ≢ minus_one → table i ≡ table j → i ≡ j

  -- A descriptor that may be handed to a holder: none, or one that is open and that no object has.
  abbrev Free : ℤ → Objects × W → Type 0
  Free fd s = (fd ≡ minus_one) ⊎ (opened s.1 fd ≡ true) × ((j : ℕ) → held s.0 j ≢ fd)

  -- What a statement needs: its objects live, or do not yet, and what it adopts is free.
  abbrev pub Allowed : Op → Objects × W → Type 0
  Allowed (constructs i fd) s = (s.0 i ≡ none) × Free fd s
  Allowed (constructs_empty i) s = s.0 i ≡ none
  Allowed (move_constructs i j) s = (s.0 i ≡ none) × (s.0 j ≢ none)
  Allowed (move_assigns i j) s = (s.0 i ≢ none) × (s.0 j ≢ none)
  Allowed (swaps i j) s = (s.0 i ≢ none) × (s.0 j ≢ none)
  Allowed (resets i d) s = (s.0 i ≢ none) × Free d.number s
  Allowed (releases i) s = s.0 i ≢ none
  Allowed (destroys i) s = s.0 i ≢ none

-- The descriptor that a statement closes, -1 for none.
unfoldable pub closes : Op → Objects → ℤ
closes (resets i d) objs = held objs i
closes (destroys i) objs = held objs i
closes _ objs = minus_one

-- The table of what is held after a statement.
unfoldable pub held_after : Op → Objects → ℕ → ℤ
held_after (constructs i fd) objs = update (held objs) i fd
held_after (constructs_empty i) objs = update (held objs) i minus_one
held_after (move_constructs i j) objs = update (update (held objs) j minus_one) i (held objs j)
held_after (move_assigns i j) objs = update (update (held objs) i (held objs j)) j (held objs i)
held_after (swaps i j) objs = update (update (held objs) i (held objs j)) j (held objs i)
held_after (resets i d) objs = update (held objs) i d.number
held_after (releases i) objs = update (held objs) i minus_one
held_after (destroys i) objs = update (held objs) i minus_one
