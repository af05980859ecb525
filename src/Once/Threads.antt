-- ===== src/Once/Threads.antt =====
-- The calls of many threads on one Once (sex/util/once.hpp), a step at a time: the loads and the
-- store of `invoked_`, taking and giving up `mutex_`, and the end of `action_()`.
use sex.Common.{
  ℕ, suc, Bool, true, false, ◌==◌, if◌then◌else◌, Option, none, some, ◌≤◌, ◌≡◌, ◌≢◌, ◌⊎◌, inl, inr,
  refl, arith,
}

-- Where a thread is in operator(): not in it, before the lock, after it, in the action, before the
-- store, in the destructor of the lock with the flag set or with an exception; or out of it again.
pub data Place : Type 0 where
  outside_call waiting locked acting storing unlocking unwinding returned threw : Place

pub record System : Type 0 where
  pub invoked : Bool
  pub owner : Option ℕ
  pub completed : ℕ
  pub place : ℕ → Place

-- The thread `t` goes to a place.
abbrev pub goes : System → ℕ → Place → System
goes s t p = record s { place = λ u. if t == u then p else s.place u }

pub data Step (s : System) : System → Type 0 where
  load_true : (t : ℕ) → s.place t ≡ outside_call → s.invoked ≡ true → Step s (goes s t returned)
  load_false : (t : ℕ) → s.place t ≡ outside_call → s.invoked ≡ false → Step s (goes s t waiting)
  take :
      (t : ℕ)
      → s.place t ≡ waiting
      → s.owner ≡ none
      → Step s (goes (record s { owner = some t }) t locked)
  again_true : (t : ℕ) → s.place t ≡ locked → s.invoked ≡ true → Step s (goes s t unlocking)
  again_false : (t : ℕ) → s.place t ≡ locked → s.invoked ≡ false → Step s (goes s t acting)
  act :
      (t : ℕ)
      → s.place t ≡ acting
      → Step s (goes (record s { completed = suc s.completed }) t storing)
  act_throws : (t : ℕ) → s.place t ≡ acting → Step s (goes s t unwinding)
  store : (t : ℕ) → s.place t ≡ storing → Step s (goes (record s { invoked = true }) t unlocking)
  unlock_done :
      (t : ℕ) → s.place t ≡ unlocking → Step s (goes (record s { owner = none }) t returned)
  unlock_throws :
      (t : ℕ) → s.place t ≡ unwinding → Step s (goes (record s { owner = none }) t threw)
  calls_again :
      (t : ℕ) → (s.place t ≡ returned) ⊎ (s.place t ≡ threw) → Step s (goes s t outside_call)

abbrev pub first_system : System
first_system = record { invoked = false; owner = none; completed = 0; place = λ t. outside_call }

pub data Reachable : System → Type 0 where
  start : Reachable first_system
  after : (s s' : System) → Reachable s → Step s s' → Reachable s'

-- The places between taking the mutex and giving it up.
abbrev pub critical : Place → Bool
critical locked = true
critical acting = true
critical storing = true
critical unlocking = true
critical unwinding = true
critical _ = false

-- What is known where a thread is: of the owner of the mutex, the flag, and the number of times
-- that the action has come to its end.
abbrev Knows : System → ℕ → Type 0
Knows s t =
    ((critical (s.place t) ≡ false) ⊎ (s.owner ≡ some t))
    × ((s.place t ≢ acting) ⊎ (s.invoked ≡ false) × (s.completed ≡ 0))
    × ((s.place t ≢ storing) ⊎ (s.invoked ≡ false) × (s.completed ≡ 1))
    × ((s.place t ≢ unlocking) ⊎ (s.invoked ≡ true))
    × ((s.place t ≢ returned) ⊎ (s.invoked ≡ true))

-- The number goes up from 0 to 1, and then the flag is stored.
abbrev Counted : System → Type 0
Counted s =
    (s.invoked ≡ true) × (s.completed ≡ 1)
    ⊎ (s.invoked ≡ false) × (s.completed ≡ 0)
    ⊎ ((t : ℕ) × (s.invoked ≡ false) × (s.completed ≡ 1) × (s.place t ≡ storing))

pub record Consistent (s : System) : Type 0 where
  pub knows : (t : ℕ) → Knows s t
  pub counted : Counted s

Knows-after : (s s' : System) → Consistent s → Step s s' → (u : ℕ) → Knows s' u
Knows-after s s' c (load_true t p i) u = ground (arith, c.knows u, c.knows t)
Knows-after s s' c (load_false t p i) u = ground (arith, c.knows u, c.knows t)
Knows-after s s' c (take t p i) u = ground (arith, c.knows u, c.knows t)
Knows-after s s' c (again_true t p i) u = ground (arith, c.knows u, c.knows t)
Knows-after s s' c (again_false t p i) u = elim c.counted [
  | inl a ↦ ground (arith, c.knows u, c.knows t)
  | inr (inl a) ↦ ground (arith, c.knows u, c.knows t)
  | inr (inr a) ↦ ground (arith, c.knows u, c.knows t, c.knows a.0, a.1, a.2, a.3)
]
Knows-after s s' c (act t p) u = ground (arith, c.knows u, c.knows t)
Knows-after s s' c (act_throws t p) u = ground (arith, c.knows u, c.knows t)
Knows-after s s' c (store t p) u = ground (arith, c.knows u, c.knows t)
Knows-after s s' c (unlock_done t p) u = ground (arith, c.knows u, c.knows t)
Knows-after s s' c (unlock_throws t p) u = ground (arith, c.knows u, c.knows t)
Knows-after s s' c (calls_again t p) u = ground (arith, c.knows u, c.knows t)

-- A thread that does not stand before the store may go anywhere.
goes-Counted :
    (s : System) (t : ℕ) (p : Place) → Counted s → s.place t ≢ storing → Counted (goes s t p)
goes-Counted s t p (inl a) h = inl a
goes-Counted s t p (inr (inl a)) h = inr (inl a)
goes-Counted s t p (inr (inr (v, a, b, d))) h = inr (inr (v, a, b, ground (arith, d, h)))

counted_after : (s s' : System) → Consistent s → Step s s' → Counted s'
counted_after s s' c (load_true t p i) = goes-Counted s t returned c.counted (ground arith)
counted_after s s' c (load_false t p i) = goes-Counted s t waiting c.counted (ground arith)
counted_after s s' c (take t p i) =
    goes-Counted (record s { owner = some t }) t locked c.counted (ground arith)
counted_after s s' c (again_true t p i) = goes-Counted s t unlocking c.counted (ground arith)
counted_after s s' c (again_false t p i) = goes-Counted s t acting c.counted (ground arith)
counted_after s s' c (act t p) =
    inr (inr (t, ground (arith, c.knows t), ground (arith, c.knows t), ground arith))
counted_after s s' c (act_throws t p) = goes-Counted s t unwinding c.counted (ground arith)
counted_after s s' c (store t p) = inl (refl, ground (arith, c.knows t))
counted_after s s' c (unlock_done t p) =
    goes-Counted (record s { owner = none }) t returned c.counted (ground arith)
counted_after s s' c (unlock_throws t p) =
    goes-Counted (record s { owner = none }) t threw c.counted (ground arith)
counted_after s s' c (calls_again t (inl p)) =
    goes-Counted s t outside_call c.counted (ground arith)
counted_after s s' c (calls_again t (inr p)) =
    goes-Counted s t outside_call c.counted (ground arith)

pub reachable-Consistent : (s : System) → Reachable s → Consistent s
reachable-Consistent s start = record {
  knows = λ t. (
    inl refl,
    inl (λ e. ground arith),
    inl (λ e. ground arith),
    inl (λ e. ground arith),
    inl (λ e. ground arith),
  );
  counted = inr (inl (refl, refl));
}
reachable-Consistent s' (after s _ r step) =
    let c = reachable-Consistent s r in
    record { knows = Knows-after s s' c step; counted = counted_after s s' c step }

-- However many threads call one Once, in whatever order their steps come, and however often the
-- action throws: the action has come to its end at most once; wherever a thread has returned from
-- its call, it has come to its end exactly once; and no two threads are between taking the mutex
-- and giving it up.
pub once_runs :
    (s : System) (t u : ℕ)
    → Reachable s
    → (s.completed ≤ 1)
      × ((s.place t ≢ returned) ⊎ (s.completed ≡ 1))
      × ((critical (s.place t) ≡ false) ⊎ (critical (s.place u) ≡ false) ⊎ (t ≡ u))
once_runs s t u r =
    let c = reachable-Consistent s r in
    elim c.counted [
      | inl a ↦ (ground arith, ground arith, ground (arith, c.knows t, c.knows u))
      | inr (inl a) ↦
          (ground arith, ground (arith, c.knows t), ground (arith, c.knows t, c.knows u))
      | inr (inr a) ↦
          (ground (arith, a.2), ground (arith, a.2), ground (arith, c.knows t, c.knows u))
    ]
