-- ===== src/Container/Processes/Together.antt =====
-- What holds while many processes run `Initialize` (sex/container.cpp).
use sex.Common.{ℕ, Bool, true, false, if◌then◌else◌, ◌≤◌, ◌≡◌, ◌≢◌, ◌⊎◌, inl, inr, refl, sym, arith}
use sex.Flock.Laws.{Mode, free, exclusive}
use sex.Container.Processes.{
  Place, creating, closing, returned, lock_of, Machine, Step, opens, open_fails, locks_shared,
  finds, misses, gives_up_shared, locks_exclusive, finds_now, misses_now, creates, call_fails,
  unlocks, unlocks_throwing, closes, close_fails, closes_throwing, first_machine, Reachable, start,
  after,
}

-- Who may be where together.
abbrev Together : Place → Place → Type 0
Together p q = (lock_of p ≢ exclusive) ⊎ (lock_of q ≡ free)

abbrev Counted : Bool → Machine → Type 0
Counted there s =
    (s.present ≡ false) × (s.created ≡ 0) × (there ≡ false)
    ⊎ (s.present ≡ true) × (there ≡ true) × (s.created ≡ 0)
    ⊎ (s.present ≡ true) × (there ≡ false) × (s.created ≡ 1)

pub record Consistent (there : Bool) (s : Machine) : Type 0 where
  pub apart : (t u : ℕ) → (t ≡ u) ⊎ Together (s.place t) (s.place u)
  pub knows_creating : (t : ℕ) → (s.place t ≢ creating) ⊎ (s.present ≡ false)
  pub knows_closing : (t : ℕ) (m : Mode) → (s.place t ≢ closing m) ⊎ (s.present ≡ true)
  pub knows_returned : (t : ℕ) → (s.place t ≢ returned) ⊎ (s.present ≡ true)
  pub counted : Counted there s

module _ (there : Bool) where
  apart_after :
      (s s' : Machine)
      → Consistent there s
      → Step s s'
      → (u v : ℕ) → (u ≡ v) ⊎ Together (s'.place u) (s'.place v)
  apart_after s s' c (opens t p) u v = ground (arith, c.apart u v)
  apart_after s s' c (open_fails t p) u v = ground (arith, c.apart u v)
  apart_after s s' c (locks_shared t p none) u v = ground (arith, c.apart u v, none u, none v)
  apart_after s s' c (finds t p i) u v = ground (arith, c.apart u v)
  apart_after s s' c (misses t p i) u v = ground (arith, c.apart u v)
  apart_after s s' c (gives_up_shared t p) u v = ground (arith, c.apart u v)
  apart_after s s' c (locks_exclusive t p none) u v = ground (arith, c.apart u v, none u, none v)
  apart_after s s' c (finds_now t p i) u v = ground (arith, c.apart u v)
  apart_after s s' c (misses_now t p i) u v = ground (arith, c.apart u v)
  apart_after s s' c (creates t p) u v = ground (arith, c.apart u v)
  apart_after s s' c (call_fails t w) u v = ground (arith, c.apart u v)
  apart_after s s' c (closes t m p) u v = ground (arith, c.apart u v)
  apart_after s s' c (close_fails t m p) u v = ground (arith, c.apart u v)
  apart_after s s' c (closes_throwing t m p) u v = ground (arith, c.apart u v)
  apart_after s s' c (unlocks_throwing t m p) u v = ground (arith, c.apart u v)
  apart_after s s' c (unlocks t m p) u v = ground (arith, c.apart u v)

  creating_after :
      (s s' : Machine)
      → Consistent there s
      → Step s s'
      → (u : ℕ) → (s'.place u ≢ creating) ⊎ (s'.present ≡ false)
  creating_after s s' c (opens t p) u = ground (arith, c.knows_creating u)
  creating_after s s' c (open_fails t p) u = ground (arith, c.knows_creating u)
  creating_after s s' c (locks_shared t p none) u = ground (arith, c.knows_creating u)
  creating_after s s' c (finds t p i) u = ground (arith, c.knows_creating u)
  creating_after s s' c (misses t p i) u = ground (arith, c.knows_creating u)
  creating_after s s' c (gives_up_shared t p) u = ground (arith, c.knows_creating u)
  creating_after s s' c (locks_exclusive t p none) u = ground (arith, c.knows_creating u)
  creating_after s s' c (finds_now t p i) u = ground (arith, c.knows_creating u)
  creating_after s s' c (misses_now t p i) u = ground (arith, c.knows_creating u)
  creating_after s s' c (creates t p) u = ground (arith, c.knows_creating u, c.apart t u)
  creating_after s s' c (call_fails t w) u = ground (arith, c.knows_creating u)
  creating_after s s' c (closes t m p) u = ground (arith, c.knows_creating u)
  creating_after s s' c (close_fails t m p) u = ground (arith, c.knows_creating u)
  creating_after s s' c (closes_throwing t m p) u = ground (arith, c.knows_creating u)
  creating_after s s' c (unlocks_throwing t m p) u = ground (arith, c.knows_creating u)
  creating_after s s' c (unlocks t m p) u = ground (arith, c.knows_creating u)

  closing_after :
      (s s' : Machine)
      → Consistent there s
      → Step s s'
      → (u : ℕ) (n : Mode) → (s'.place u ≢ closing n) ⊎ (s'.present ≡ true)
  closing_after s s' c (opens t p) u n = ground (arith, c.knows_closing u n)
  closing_after s s' c (open_fails t p) u n = ground (arith, c.knows_closing u n)
  closing_after s s' c (locks_shared t p none) u n = ground (arith, c.knows_closing u n)
  closing_after s s' c (finds t p i) u n = ground (arith, c.knows_closing u n)
  closing_after s s' c (misses t p i) u n = ground (arith, c.knows_closing u n)
  closing_after s s' c (gives_up_shared t p) u n = ground (arith, c.knows_closing u n)
  closing_after s s' c (locks_exclusive t p none) u n = ground (arith, c.knows_closing u n)
  closing_after s s' c (finds_now t p i) u n = ground (arith, c.knows_closing u n)
  closing_after s s' c (misses_now t p i) u n = ground (arith, c.knows_closing u n)
  closing_after s s' c (creates t p) u n = ground (arith, c.knows_closing u n)
  closing_after s s' c (call_fails t w) u n = ground (arith, c.knows_closing u n)
  closing_after s s' c (closes t m p) u n = ground (arith, c.knows_closing u n)
  closing_after s s' c (close_fails t m p) u n = ground (arith, c.knows_closing u n)
  closing_after s s' c (closes_throwing t m p) u n = ground (arith, c.knows_closing u n)
  closing_after s s' c (unlocks_throwing t m p) u n = ground (arith, c.knows_closing u n)
  closing_after s s' c (unlocks t m p) u n =
      ground (arith, c.knows_closing u n, c.knows_closing t m)

  returned_after :
      (s s' : Machine)
      → Consistent there s
      → Step s s'
      → (u : ℕ) → (s'.place u ≢ returned) ⊎ (s'.present ≡ true)
  returned_after s s' c (opens t p) u = ground (arith, c.knows_returned u)
  returned_after s s' c (open_fails t p) u = ground (arith, c.knows_returned u)
  returned_after s s' c (locks_shared t p none) u = ground (arith, c.knows_returned u)
  returned_after s s' c (finds t p i) u = ground (arith, c.knows_returned u)
  returned_after s s' c (misses t p i) u = ground (arith, c.knows_returned u)
  returned_after s s' c (gives_up_shared t p) u = ground (arith, c.knows_returned u)
  returned_after s s' c (locks_exclusive t p none) u = ground (arith, c.knows_returned u)
  returned_after s s' c (finds_now t p i) u = ground (arith, c.knows_returned u)
  returned_after s s' c (misses_now t p i) u = ground (arith, c.knows_returned u)
  returned_after s s' c (creates t p) u = ground (arith, c.knows_returned u)
  returned_after s s' c (call_fails t w) u = ground (arith, c.knows_returned u)
  returned_after s s' c (closes t m p) u = ground (arith, c.knows_returned u, c.knows_closing t m)
  returned_after s s' c (close_fails t m p) u = ground (arith, c.knows_returned u)
  returned_after s s' c (closes_throwing t m p) u = ground (arith, c.knows_returned u)
  returned_after s s' c (unlocks_throwing t m p) u = ground (arith, c.knows_returned u)
  returned_after s s' c (unlocks t m p) u = ground (arith, c.knows_returned u)

  counted_after : (s s' : Machine) → Consistent there s → Step s s' → Counted there s'
  counted_after s s' c (creates t p) = ground (arith, c.counted, c.knows_creating t)
  counted_after s s' c (opens t p) = c.counted
  counted_after s s' c (open_fails t p) = c.counted
  counted_after s s' c (locks_shared t p none) = c.counted
  counted_after s s' c (finds t p i) = c.counted
  counted_after s s' c (misses t p i) = c.counted
  counted_after s s' c (gives_up_shared t p) = c.counted
  counted_after s s' c (locks_exclusive t p none) = c.counted
  counted_after s s' c (finds_now t p i) = c.counted
  counted_after s s' c (misses_now t p i) = c.counted
  counted_after s s' c (call_fails t w) = c.counted
  counted_after s s' c (closes t m p) = c.counted
  counted_after s s' c (close_fails t m p) = c.counted
  counted_after s s' c (closes_throwing t m p) = c.counted
  counted_after s s' c (unlocks_throwing t m p) = c.counted
  counted_after s s' c (unlocks t m p) = c.counted

  first-Counted : (b : Bool) → b ≡ there → Counted there (first_machine b)
  first-Counted true e = inr (inl (refl, sym e, refl))
  first-Counted false e = inl (refl, refl, sym e)

  pub reachable-Consistent : (s : Machine) → Reachable there s → Consistent there s
  reachable-Consistent s start = record {
    apart = λ t u. inr (inr refl);
    knows_creating = λ t. inl (λ e. ground arith);
    knows_closing = λ t m. inl (λ e. ground arith);
    knows_returned = λ t. inl (λ e. ground arith);
    counted = first-Counted there refl;
  }
  reachable-Consistent s' (after s _ r step) =
      let c = reachable-Consistent s r in
      record {
        apart = apart_after s s' c step;
        knows_creating = creating_after s s' c step;
        knows_closing = closing_after s s' c step;
        knows_returned = returned_after s s' c step;
        counted = counted_after s s' c step;
      }

  -- However many processes run the action of `Initialize` on one file system, in whatever order
  -- their steps come and whatever calls fail: create_directory makes TmpSbox at most once, and not
  -- at all if it was there; it is there as soon as one process has returned; and while a process has
  -- the exclusive lock no other has any, although `unlock` has kept the shared one.
  pub initialize_together :
      (s : Machine) (t u : ℕ)
      → Reachable there s
      → (s.created ≤ (if there then 0 else 1))
        × ((s.place t ≢ returned) ⊎ (s.present ≡ true))
        × ((t ≡ u) ⊎ (lock_of (s.place t) ≢ exclusive) ⊎ (lock_of (s.place u) ≡ free))
  initialize_together s t u r =
      let c = reachable-Consistent s r in
      (ground (arith, c.counted), c.knows_returned t, ground (arith, c.apart t u))
