-- ===== src/Container/Processes.antt =====
-- Many processes that run `Initialize` (sex/container.cpp) on one file system, a step at a time.
-- The lock file is locked by flock, whose shared lock is given up before an exclusive one is
-- waited for.
pub mod Together
pub mod Pool
use sex.Common.{
  ℕ, suc, Bool, true, false, ◌==◌, if◌then◌else◌, ◌≤◌, ◌≡◌, ◌≢◌, ◌⊎◌, inl, inr, refl, sym, arith,
}
use sex.Flock.Laws.{Mode, free, shared, exclusive}

-- Where a process is in the action of `Initialize`: before the lock file is opened; before
-- `lock(RLock)`, its `check`, and `lock(RWLock)`, where `unlock` has kept the shared lock; in that
-- call, with no lock; before the second `check` and before create_directory; in the destructor of
-- the guard, by return or by exception, with the lock that it has; and out of it again (`threw` is also the end of a
-- process whose destructor failed).
pub data Place : Type 0 where
  opening asking_shared first_check converting asking_exclusive second_check creating : Place
  closing unwinding : Mode → Place
  returned threw : Place

-- The lock that a process has at a place.
abbrev pub lock_of : Place → Mode
lock_of first_check = shared
lock_of converting = shared
lock_of second_check = exclusive
lock_of creating = exclusive
lock_of (closing m) = m
lock_of (unwinding m) = m
lock_of _ = free

-- The places from which a call that fails leads to the destructor by an exception.
abbrev pub makes_call : Place → Bool
makes_call asking_shared = true
makes_call first_check = true
makes_call converting = true
makes_call asking_exclusive = true
makes_call second_check = true
makes_call creating = true
makes_call _ = false

-- Whether TmpSbox is there, and how often create_directory has made it.
pub record Machine : Type 0 where
  pub present : Bool
  pub created : ℕ
  pub place : ℕ → Place

abbrev pub goes : Machine → ℕ → Place → Machine
goes s t p = record s { place = λ u. if t == u then p else s.place u }

pub data Step (s : Machine) : Machine → Type 0 where
  opens : (t : ℕ) → s.place t ≡ opening → Step s (goes s t asking_shared)
  open_fails : (t : ℕ) → s.place t ≡ opening → Step s (goes s t threw)
  locks_shared :
      (t : ℕ)
      → s.place t ≡ asking_shared
      → ((u : ℕ) → lock_of (s.place u) ≢ exclusive)
      → Step s (goes s t first_check)
  finds : (t : ℕ) → s.place t ≡ first_check → s.present ≡ true → Step s (goes s t (closing shared))
  misses : (t : ℕ) → s.place t ≡ first_check → s.present ≡ false → Step s (goes s t converting)
  gives_up_shared : (t : ℕ) → s.place t ≡ converting → Step s (goes s t asking_exclusive)
  locks_exclusive :
      (t : ℕ)
      → s.place t ≡ asking_exclusive
      → ((u : ℕ) → lock_of (s.place u) ≡ free)
      → Step s (goes s t second_check)
  finds_now :
      (t : ℕ) → s.place t ≡ second_check → s.present ≡ true → Step s (goes s t (closing exclusive))
  misses_now : (t : ℕ) → s.place t ≡ second_check → s.present ≡ false → Step s (goes s t creating)
  creates :
      (t : ℕ)
      → s.place t ≡ creating
      → Step s (goes (record s { present = true; created = suc s.created }) t (closing exclusive))
  call_fails :
      (t : ℕ) → makes_call (s.place t) ≡ true → Step s (goes s t (unwinding (lock_of (s.place t))))
  unlocks : (t : ℕ) (m : Mode) → s.place t ≡ closing m → Step s (goes s t (closing free))
  unlocks_throwing :
      (t : ℕ) (m : Mode) → s.place t ≡ unwinding m → Step s (goes s t (unwinding free))
  closes : (t : ℕ) (m : Mode) → s.place t ≡ closing m → Step s (goes s t returned)
  close_fails : (t : ℕ) (m : Mode) → s.place t ≡ closing m → Step s (goes s t threw)
  closes_throwing : (t : ℕ) (m : Mode) → s.place t ≡ unwinding m → Step s (goes s t threw)

-- All processes begin, and TmpSbox is there or not.
abbrev pub first_machine : Bool → Machine
first_machine there = record { present = there; created = 0; place = λ t. opening }

pub data Reachable (there : Bool) : Machine → Type 0 where
  start : Reachable there (first_machine there)
  after : (s s' : Machine) → Reachable there s → Step s s' → Reachable there s'
