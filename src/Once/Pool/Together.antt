-- ===== src/Once/Pool/Together.antt =====
-- What holds while many threads run the program of operator() (sex/util/once.hpp), a call at a
-- time.
use sex.Common.{
  ℕ, Bool, true, false, some, ◌≤◌, ◌≡◌, ◌≢◌, ◌⊎◌, inl, inr, refl, ap, sym, subst, ◌∙◌, arith,
}
use sex.Runtime.{done, Exception}
use sex.Calls.{ends, calls}
use sex.Once.Program.{lock_call, action_call, unlock_call, OnceProgram}
use sex.Once.Threads.{
  Place, outside_call, waiting, locked, acting, storing, unlocking, unwinding, returned, threw,
  System, reachable-Consistent, critical, once_runs,
}
use sex.Once.Holder.{Held, reachable-Held}
use sex.Once.Pool.{Memory, Pool, ReachablePool}
use sex.Once.Pool.Simulates.{program_at, once_pool_refines}

-- The thread has returned from operator().
abbrev pub has_returned : OnceProgram → Bool
has_returned (ends (done _)) = true
has_returned _ = false

-- The thread is out of operator(), by return or by exception.
abbrev pub has_ended : OnceProgram → Bool
has_ended (ends _) = true
has_ended _ = false

-- The thread's next call.
abbrev pub next_locks : OnceProgram → Bool
next_locks (calls lock_call f) = true
next_locks _ = false

abbrev pub next_acts : OnceProgram → Bool
next_acts (calls action_call f) = true
next_acts _ = false

abbrev pub next_unlocks : OnceProgram → Bool
next_unlocks (calls unlock_call f) = true
next_unlocks _ = false

-- What the thread's place says of its program.
abbrev Told : OnceProgram → Place → Type 0
Told p q =
    ((has_returned p ≡ false) ⊎ (q ≡ returned))
    × ((next_locks p ≡ false) ⊎ (q ≡ waiting))
    × ((next_acts p ≡ false) ⊎ (q ≡ acting))
    × ((next_unlocks p ≡ false) ⊎ (critical q ≡ true))

program_at-Told : (q : Place) (e : Exception) → Told (program_at q e) q
program_at-Told outside_call e = (inl refl, inl refl, inl refl, inl refl)
program_at-Told waiting e = (inl refl, inr refl, inl refl, inl refl)
program_at-Told locked e = (inl refl, inl refl, inl refl, inl refl)
program_at-Told acting e = (inl refl, inl refl, inr refl, inl refl)
program_at-Told storing e = (inl refl, inl refl, inl refl, inl refl)
program_at-Told unlocking e = (inl refl, inl refl, inl refl, inr refl)
program_at-Told unwinding e = (inl refl, inl refl, inl refl, inr refl)
program_at-Told returned e = (inr refl, inl refl, inl refl, inl refl)
program_at-Told threw e = (inl refl, inl refl, inl refl, inl refl)

-- A thread that waits for the mutex does not have it.
waiting_lem : (s : System) (t : ℕ) → Held s → s.place t ≡ waiting → s.owner ≢ some t
waiting_lem s t (inl free) w o = ground arith
waiting_lem s t (inr (u, owns, c)) w o = ground (arith, owns, o, w, c)

-- However many threads run the program of operator(), in whatever order their calls come, and
-- however often the action throws: the action has come to its end at most once, and exactly once
-- if any thread has returned; where a thread is about to run the action it has not yet come to its
-- end, and no other thread is about to run it; a thread that is about to take the mutex does not
-- have it; and a thread that is about to give it up has it.
pub once_pool_together :
    (x : Pool) (t u : ℕ)
    → ReachablePool x
    → (x.memory.completed ≤ 1)
      × ((has_returned (x.program t) ≡ false) ⊎ (x.memory.completed ≡ 1))
      × ((next_acts (x.program t) ≡ false) ⊎ (x.memory.completed ≡ 0))
      × ((next_acts (x.program t) ≡ false) ⊎ (next_acts (x.program u) ≡ false) ⊎ (t ≡ u))
      × ((next_locks (x.program t) ≡ false) ⊎ (x.memory.owner ≢ some t))
      × ((next_unlocks (x.program t) ≡ false) ⊎ (x.memory.owner ≡ some t))
once_pool_together x t u reachable =
    let (s, r, c) = once_pool_refines x reachable in
    let k = reachable-Consistent s r in
    let (once, returns, alone) = once_runs s t u r in
    let (e, here) = c.stands t in
    let (e', there) = c.stands u in
    let told : Told (x.program t) (s.place t) =
      subst (λ p. Told p (s.place t)) (sym here) (program_at-Told (s.place t) e) in
    let told' : Told (x.program u) (s.place u) =
      subst (λ p. Told p (s.place u)) (sym there) (program_at-Told (s.place u) e') in
    let completed = ap (λ (m : Memory). m.completed) c.same_memory in
    let owner = ap (λ (m : Memory). m.owner) c.same_memory in
    (
      rw completed once,
      ground (arith, told, returns, completed),
      ground (arith, told, k.knows t, completed),
      ground (arith, told, told', alone),
      elim told.1 [
        | inl other ↦ inl other
        | inr waits ↦ inr (λ has. waiting_lem s t (reachable-Held s r) waits (sym owner ∙ has))
      ],
      ground (arith, told, k.knows t, owner),
    )
