-- ===== src/Flock/Guarded/Bounded.antt =====
-- The calls of a guarded program: seven, and those of its making (sex/util/flock.hpp).
use sex.Common.{ℕ, zero, suc, Bool, true, false}
use sex.Common.Int.{ℤ, minus_one, ◌==ℤ◌}
use sex.Runtime.{Outcome, done, thrown, terminated, Sys}
use sex.Result.{Result, ok, error}
use sex.Calls.{CallProgram, ends, calls}
use sex.Calls.Bounded.{Within, Within-if}
use sex.Flock.Guarded.{
  Initialiser, outcome_of, open_failure, flock_failure, leaves, leaves_exclusive, then_leaves,
  after_second, exclusive_program, after_first, shared_program, guarded_program,
}

module _ {C : Type 0} (A : C → Type 0) where
  leaves-Within :
      (d : ℕ) (fd : ℤ) (r : Outcome (Unit {0})) → Within (suc d) (leaves {C = C} {A = A} fd r)
  leaves-Within d fd r a = Within-if d (a.value ==ℤ minus_one) _ _ tt tt

  leaves_exclusive-Within :
      (d : ℕ) (fd : ℤ) (r : Outcome (Unit {0}))
      → Within (suc (suc d)) (leaves_exclusive {C = C} {A = A} fd r)
  leaves_exclusive-Within d fd r a =
      Within-if (suc d) (a.value ==ℤ minus_one) (ends terminated) (leaves fd r) tt
        (leaves-Within d fd r)

module _ {C : Type 0} {A : C → Type 0} where
  then_leaves-Within :
      (d : ℕ) (fd : ℤ) (p : CallProgram C A (Result (Unit {0})))
      → Within d p
      → Within (suc (suc d)) (then_leaves fd p)
  then_leaves-Within d fd (ends r) w = leaves_exclusive-Within A d fd (outcome_of r)
  then_leaves-Within zero fd (calls c f) w = elim w [ ]
  then_leaves-Within (suc d) fd (calls c f) w = λ a. then_leaves-Within d fd (f a) (w a)

  module _ {W : Type 0} (sys : Sys W) (i : Initialiser A) (d : ℕ)
      (creates : Within d i.create) where
    second-Within : (fd : ℤ) (r : Result Bool) → Within (suc (suc d)) (after_second i fd r)
    second-Within fd (ok true) = leaves_exclusive-Within A d fd (done tt)
    second-Within fd (ok false) = then_leaves-Within d fd i.create creates
    second-Within fd (error e) = leaves_exclusive-Within A d fd (thrown e)

    exclusive-Within : (fd : ℤ) → Within (suc (suc (suc (suc d)))) (exclusive_program sys i fd)
    exclusive-Within fd a =
        Within-if (suc (suc (suc d))) (a.value ==ℤ minus_one) _ _
          (leaves-Within A (suc (suc d)) fd (thrown (flock_failure sys a)))
          (λ b. second-Within fd (i.found b))

    first-Within :
        (fd : ℤ) (r : Result Bool) → Within (suc (suc (suc (suc d)))) (after_first sys i fd r)
    first-Within fd (ok true) = leaves-Within A (suc (suc (suc d))) fd (done tt)
    first-Within fd (ok false) = exclusive-Within fd
    first-Within fd (error e) = leaves-Within A (suc (suc (suc d))) fd (thrown e)

    shared-Within :
        (fd : ℤ) → Within (suc (suc (suc (suc (suc (suc d)))))) (shared_program sys i fd)
    shared-Within fd a =
        Within-if (suc (suc (suc (suc (suc d))))) (a.value ==ℤ minus_one) _ _
          (leaves-Within A (suc (suc (suc (suc d)))) fd (thrown (flock_failure sys a)))
          (λ b. first-Within fd (i.found b))

    pub guarded-Within : Within (suc (suc (suc (suc (suc (suc (suc d))))))) (guarded_program sys i)
    unfolding guarded_program
    guarded-Within a =
        Within-if (suc (suc (suc (suc (suc (suc d)))))) (a.value ==ℤ minus_one)
          (ends (thrown (open_failure sys a))) _ tt (shared-Within a.value)
