-- ===== src/Once/Holder.antt =====
-- Who has the mutex of a Once (sex/util/once.hpp).
use sex.Common.{ℕ, suc, true, false, none, some, ◌≡◌, ◌⊎◌, inl, inr, refl, arith}
use sex.Once.Threads.{
  Place, outside_call, waiting, acting, storing, unlocking, unwinding, returned, System, goes, Step,
  load_true, load_false, take, again_true, again_false, act, act_throws, store, unlock_done,
  unlock_throws, calls_again, Reachable, start, after, critical,
}

-- The mutex is free, or some thread between taking it and giving it up has it.
abbrev pub Held : System → Type 0
Held s = (s.owner ≡ none) ⊎ ((t : ℕ) × (s.owner ≡ some t) × (critical (s.place t) ≡ true))

goes-Held :
    (s : System) (t : ℕ) (p : Place)
    → Held s
    → (critical p ≡ true) ⊎ (critical (s.place t) ≡ false)
    → Held (goes s t p)
goes-Held s t p (inl e) h = inl e
goes-Held s t p (inr (v, e, c)) h = inr (v, e, ground (arith, c, h))

step-Held : (s s' : System) → Held s → Step s s' → Held s'
step-Held s s' h (load_true t p i) = goes-Held s t returned h (ground arith)
step-Held s s' h (load_false t p i) = goes-Held s t waiting h (ground arith)
step-Held s s' h (take t p i) = inr (t, refl, ground arith)
step-Held s s' h (again_true t p i) = goes-Held s t unlocking h (inl refl)
step-Held s s' h (again_false t p i) = goes-Held s t acting h (inl refl)
step-Held s s' h (act t p) =
    goes-Held (record s { completed = suc s.completed }) t storing h (inl refl)
step-Held s s' h (act_throws t p) = goes-Held s t unwinding h (inl refl)
step-Held s s' h (store t p) = goes-Held (record s { invoked = true }) t unlocking h (inl refl)
step-Held s s' h (unlock_done t p) = inl refl
step-Held s s' h (unlock_throws t p) = inl refl
step-Held s s' h (calls_again t (inl p)) = goes-Held s t outside_call h (ground arith)
step-Held s s' h (calls_again t (inr p)) = goes-Held s t outside_call h (ground arith)

pub reachable-Held : (s : System) → Reachable s → Held s
reachable-Held s start = inl refl
reachable-Held s' (after s _ r step) = step-Held s s' (reachable-Held s r) step
