-- ===== src/Container/Processes/Pool/Discipline.antt =====
-- The discipline that `Initialize` keeps (sex/container.cpp): TmpSbox is made at most once, under the
-- exclusive lock.
use sex.Common.{
  ℕ, Bool, true, false, ◌==◌, if◌then◌else◌, ◌≡◌, ◌⊎◌, inl, inr, refl, sym, subst, arith,
  Bool-cases,
}
use sex.Runtime.{filesystem_error}
use sex.Result.{Result, ok, error}
use sex.Calls.{CallProgram, ends, calls}
use sex.Flock.Guarded.Pool.Phases.{decided}
use sex.Flock.Guarded.Pool.Discipline.{Discipline}
use sex.Container.Program.{
  OwnCall, exists_call, create_call, OwnAnswer, fs_result, sbox_initialiser,
}
use sex.Container.Processes.Pool.{Sbox, OnSbox, first_sbox}

module _ (there : Bool) where
  abbrev pub IsMissing : Sbox → Type 0
  IsMissing k = (there ≡ false) × (k.present ≡ false) × (k.created ≡ 0)

  abbrev pub IsThere : Sbox → Type 0
  IsThere k = (k.present ≡ true) × (k.created ≡ (if there then 0 else 1))

  abbrev pub after_create : Bool × ℕ → CallProgram OwnCall OwnAnswer (Result (Unit {0}))
  after_create a = ends (if a.1 == 0 then ok tt else error (filesystem_error a.1))

  -- What holds where this much of the making is left.
  abbrev pub IsDuring : Sbox → CallProgram OwnCall OwnAnswer (Result (Unit {0})) → Type 0
  IsDuring k (ends (ok _)) = IsThere k
  IsDuring k (ends (error e)) = IsMissing k ⊎ IsThere k
  IsDuring k (calls create_call f) = IsMissing k × (f ≡ after_create)
  IsDuring k (calls exists_call f) = ⊥

  pub looks : (k k' : Sbox) (a : Bool × ℕ) → OnSbox k exists_call a k' → k' ≡ k
  looks k k' a h = ground (arith, h)

  pub finds :
      (k k' : Sbox) (a : Bool × ℕ)
      → OnSbox k exists_call a k'
      → fs_result a ≡ ok true
      → k.present ≡ true
  finds k k' a h f = ground (arith, h, f)

  pub decides :
      (k k' : Sbox) (a : Bool × ℕ) (r : Result Bool)
      → IsMissing k ⊎ IsThere k
      → OnSbox k exists_call a k'
      → fs_result a ≡ r
      → IsDuring k (decided sbox_initialiser r)
  decides k k' a (ok true) q h f = ground (arith, q, f, h)
  decides k k' a (ok false) (inl m) h f = (m, refl)
  decides k k' a (ok false) (inr y) h f = absurd (ground (arith, y, f, h))
  decides k k' a (error e) q h f = q

  created-IsDuring :
      (k k' : Sbox) (a : Bool × ℕ)
      → IsMissing k
      → OnSbox k create_call a k'
      → IsDuring k' (after_create a)
  created-IsDuring k k' a m (inl (z, h)) =
      let failed : (a.1 == 0) ≡ false = ground arith in rw failed (inl (subst IsMissing (sym h) m))
  created-IsDuring k k' a m (inr (z, h)) =
      let fine : (a.1 == 0) ≡ true = ground arith in
      rw fine (subst IsThere (sym h) (ground (arith, m)))

  pub makes :
      (k k' : Sbox) (c : OwnCall)
      (f : OwnAnswer c → CallProgram OwnCall OwnAnswer (Result (Unit {0}))) (a : OwnAnswer c)
      → IsDuring k (calls c f)
      → OnSbox k c a k'
      → IsDuring k' (f a)
  makes k k' exists_call f a w h = elim w [ ]
  makes k k' create_call f a (m, s) h = rw s (created-IsDuring k k' a m h)

  pub stays_present :
      (k k' : Sbox) (c : OwnCall) (a : OwnAnswer c)
      → OnSbox k c a k'
      → k.present ≡ true
      → k'.present ≡ true
  stays_present k k' exists_call a h p = ground (arith, h, p)
  stays_present k k' create_call a h p = ground (arith, h, p)

  pub ends_lem : (k : Sbox) (r : Result (Unit {0})) → IsDuring k (ends r) → IsMissing k ⊎ IsThere k
  ends_lem k (ok u) w = inr w
  ends_lem k (error e) w = w

  pub begins : IsMissing (first_sbox there) ⊎ IsThere (first_sbox there)
  begins = elim (Bool-cases there) [ inl y ↦ inr (y, rw y refl) | inr n ↦ inl (n, n, refl) ]

  -- The discipline.
  abbrev pub sbox_discipline : Discipline OnSbox sbox_initialiser (first_sbox there)
  sbox_discipline = record {
    Quiet = λ k. IsMissing k ⊎ IsThere k;
    During = IsDuring;
    Finished = λ k. k.present ≡ true;
    begins = begins;
    check_keeps = looks;
    check_finds = λ k k' a q. finds k k' a;
    check_decides = λ k k' a q h. decides k k' a (fs_result a) q h refl;
    makes = makes;
    stays_finished = λ k k' c f a w h p. stays_present k k' c a h p;
    leaves_quiet = ends_lem;
    leaves_finished = λ k w. w.0;
  }
