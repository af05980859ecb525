-- ===== src/Fd/Tests.antt =====
-- A table of open descriptors as the world, and programs on holders run over it.
use sex.Common.{
  Bool, true, false, not, ◌&&◌, none, ◌≡◌, ◌≢◌, ◌⊎◌, inr, refl, List, [], ◌∷◌, arith, if◌then◌else◌,
}
use sex.Common.Int.{ℤ, pos, minus_one, ◌==ℤ◌}
use sex.Runtime.{done, Sys}
use sex.Fd.Objects.{
  Objects, Op, constructs, move_constructs, move_assigns, destroys, step, run, held,
}
use sex.Fd.Ownership.{Closing, Releasing, StopsAt, Owned, run-Owned}

-- Close marks a descriptor as not open, and fails on one that is not open.
abbrev pub table_sys : Sys (ℤ → Bool)
table_sys = record {
  format = λ f args. f;
  strerror = λ n. "";
  error_text = λ n. "";
  close = λ fd w. (
    if w fd then record { value = pos 0; errno = 0 } else record { value = minus_one; errno = 9 },
    λ g. w g && not (fd ==ℤ g),
  );
}

pub table_close_succeeds :
    (w : ℤ → Bool) (fd : ℤ) → w fd ≡ true → (table_sys.close fd w).0.value ≢ minus_one
table_close_succeeds w fd e = ground arith

abbrev pub table_closing : Closing table_sys
table_closing = record {
  opened = λ w g. w g;
  close_succeeds = table_close_succeeds;
  close_closes = λ w fd g e. refl;
}

abbrev table_releasing : Releasing table_sys
table_releasing = record { opened = λ w g. w g; close_releases = λ w fd g e. refl }

-- Descriptors 3 and 4 are open.
abbrev pub two_open : ℤ → Bool
two_open g = if g ==ℤ pos 3 then true else g ==ℤ pos 4

abbrev no_objects : Objects
no_objects i = none

no_objects-Owned : Owned table_releasing.opened (held no_objects) two_open
no_objects-Owned = record {
  open_held = λ i h. absurd (h refl);
  unique = λ i j h e. absurd (h refl);
}

-- One holder, moved from, moved to and destroyed; the other is assigned over and destroyed.
abbrev program : List Op
program =
    constructs 0 (pos 3)
    ∷ constructs 1 (pos 4)
    ∷ move_constructs 2 0
    ∷ move_assigns 1 2
    ∷ destroys 2
    ∷ destroys 1
    ∷ destroys 0
    ∷ []

program_closes : ((run table_sys program (no_objects, two_open)).1.1 (pos 3) ≡ false)
unfolding run step
program_closes = refl

run-Owned_example :
    let (r, (objs', w')) = run table_sys program (no_objects, two_open) in
    (r ≡ done tt) × Owned table_releasing.opened (held objs') w'
    ⊎ StopsAt table_sys program (no_objects, two_open) r
unfolding step
run-Owned_example =
    run-Owned table_sys table_releasing program no_objects two_open no_objects-Owned (
      (refl, inr (refl, λ j e. ground arith)),
      (
        (refl, inr (refl, λ j e. ground arith)),
        (
          (refl, λ e. ground arith),
          (
            ((λ e. ground arith), (λ e. ground arith)),
            ((λ e. ground arith), ((λ e. ground arith), ((λ e. ground arith), tt))),
          ),
        ),
      ),
    )
