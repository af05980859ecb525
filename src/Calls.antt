-- ===== src/Calls.antt =====
-- Code as a program of calls: a call, and for each answer to it the program that goes on from
-- there. A program can be run at once, or a call at a time between the calls of other programs.
pub mod Bounded
use sex.Common.{◌≡◌}

pub data CallProgram (C : Type 0) (Answer : C → Type 0) (R : Type 0) : Type 0 where
  ends : R → CallProgram C Answer R
  calls : (c : C) → (Answer c → CallProgram C Answer R) → CallProgram C Answer R

module _ {C : Type 0} {Answer : C → Type 0} {R : Type 0} where
  -- The program run at once.
  unfoldable pub run_program :
      {S : Type 0} → ((c : C) → S → Answer c × S) → CallProgram C Answer R → S → R × S
  run_program perform (ends r) s = (r, s)
  run_program perform (calls c f) s = let (a, s') = perform c s in run_program perform (f a) s'

  -- The program's next call happens, and it goes on by the answer.
  abbrev pub Advances :
      {K : Type 0}
      → ((c : C) → Answer c → K → Type 0)
      → CallProgram C Answer R
      → K
      → CallProgram C Answer R
      → Type 0
  Advances happens (ends r) e' p = ⊥
  Advances happens (calls c f) e' p = (a : Answer c) × happens c a e' × (p ≡ f a)
