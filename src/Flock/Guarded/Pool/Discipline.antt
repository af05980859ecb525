-- ===== src/Flock/Guarded/Pool/Discipline.antt =====
-- A discipline for an initialiser that many processes run, as for the resource of a lock: what
-- holds of the resource where nobody has the exclusive lock, what holds in the making, and what
-- holds once a process has returned (sex/util/flock.hpp).
use sex.Common.{ℕ, true, ◌≡◌, ◌⊎◌}
use sex.Runtime.{Outcome, done, thrown, terminated, exited, Sys}
use sex.Result.{Result, ok}
use sex.Calls.{CallProgram, ends, calls}
use sex.Flock.Laws.{free, exclusive}
use sex.Flock.Guarded.{Initialiser}
use sex.Flock.Guarded.Pool.{Pool}
use sex.Flock.Guarded.Pool.Phases.{
  Phase, opening, asking, first, converting, waiting, second, making, leaving_shared, leaving, out,
  lock_of, decided, program_of,
}

pub record Discipline {K C : Type 0} {A : C → Type 0} (Own : K → (c : C) → A c → K → Type 0)
    (i : Initialiser A) (k₀ : K) : Type 1 where
  pub Quiet : K → Type 0
  pub During : K → CallProgram C A (Result (Unit {0})) → Type 0
  pub Finished : K → Type 0
  pub begins : Quiet k₀
  -- The check only looks.
  pub check_keeps : (k k' : K) (a : A i.check) → Own k i.check a k' → k' ≡ k
  pub check_finds :
      (k k' : K) (a : A i.check) → Quiet k → Own k i.check a k' → i.found a ≡ ok true → Finished k
  pub check_decides :
      (k k' : K) (a : A i.check) → Quiet k → Own k i.check a k' → During k (decided i (i.found a))
  -- A call of the making.
  pub makes :
      (k k' : K) (c : C) (f : A c → CallProgram C A (Result (Unit {0}))) (a : A c)
      → During k (calls c f)
      → Own k c a k'
      → During k' (f a)
  pub stays_finished :
      (k k' : K) (c : C) (f : A c → CallProgram C A (Result (Unit {0}))) (a : A c)
      → During k (calls c f)
      → Own k c a k'
      → Finished k
      → Finished k'
  -- The end of the making.
  pub leaves_quiet : (k : K) (r : Result (Unit {0})) → During k (ends r) → Quiet k
  pub leaves_finished : (k : K) → During k (ends (ok tt)) → Finished k

module _ {K C : Type 0} {A : C → Type 0} {Own : K → (c : C) → A c → K → Type 0} {i : Initialiser A}
    {k₀ : K} (d : Discipline Own i k₀) where
  open d use {Quiet, During, Finished}

  -- What a process knows in a phase.
  abbrev pub Returns : K → Outcome (Unit {0}) → Type 0
  Returns k (done _) = Finished k
  Returns k _ = Unit

  abbrev pub Knows : K → Phase A → Type 0
  Knows k (second fd) = Quiet k
  Knows k (making fd p) = During k p
  Knows k (leaving_shared fd r) = Returns k r
  Knows k (leaving fd r) = Returns k r
  Knows k (out r) = Returns k r
  Knows k _ = Unit

  Returns-kept :
      (k k' : K) (r : Outcome (Unit {0})) → (Finished k → Finished k') → Returns k r → Returns k' r
  Returns-kept k k' (done _) f w = f w
  Returns-kept k k' (thrown e) f w = tt
  Returns-kept k k' terminated f w = tt
  Returns-kept k k' (exited n) f w = tt

  -- What a process without a lock knows, another may not change by its making.
  pub Knows-kept :
      (k k' : K) (v : Phase A)
      → lock_of v ≡ free
      → (Finished k → Finished k')
      → Knows k v
      → Knows k' v
  Knows-kept k k' opening l f w = tt
  Knows-kept k k' (asking fd) l f w = tt
  Knows-kept k k' (waiting fd) l f w = tt
  Knows-kept k k' (leaving fd r) l f w = Returns-kept k k' r f w
  Knows-kept k k' (out r) l f w = Returns-kept k k' r f w
  Knows-kept k k' (first fd) l f w = tt
  Knows-kept k k' (converting fd) l f w = tt
  Knows-kept k k' (second fd) l f w = cc
  Knows-kept k k' (making fd p) l f w = cc
  Knows-kept k k' (leaving_shared fd r) l f w = cc

  module _ {W : Type 0} (sys : Sys W) where
    -- The phases of the processes of a pool.
    pub record Phases (x : Pool K A) : Type 0 where
      pub phase : ℕ → Phase A
      pub runs : (t : ℕ) → x.program t ≡ program_of i sys (phase t)
      pub holds : (t : ℕ) → x.kernel.lock t ≡ lock_of (phase t)
      pub knows : (t : ℕ) → Knows x.kernel.own (phase t)
      pub apart : (t u : ℕ) → x.kernel.lock t ≡ exclusive → (t ≡ u) ⊎ (x.kernel.lock u ≡ free)
      pub resource : Quiet x.kernel.own ⊎ ((t : ℕ) × (x.kernel.lock t ≡ exclusive))
