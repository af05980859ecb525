-- ===== src/Once/Pool/Simulates.antt =====
-- Every run of the threads that run the program of operator() a call at a time is a run of the
-- step relation of Once/Threads (sex/util/once.hpp).
use sex.Common.{
  ℕ, suc, Bool, true, false, none, some, ◌==◌, ◌≡◌, ◌⊎◌, inl, inr, refl, ap, sym, subst, ◌∙◌, arith,
  Bool-cases,
}
use sex.Runtime.{Outcome, done, thrown, terminated, exited, Exception, foreign}
use sex.Calls.{ends, Advances}
use sex.Once.Program.{OnceProgram, unlocks, stores, acts, checks_again, locks, once_program}
use sex.Once.Threads.{
  Place, outside_call, waiting, locked, acting, storing, unlocking, unwinding, returned, threw,
  System, goes, Step, load_true, load_false, take, again_true, again_false, act, act_throws, store,
  unlock_done, unlock_throws, calls_again, first_system, Reachable, start, after,
}
use sex.Once.Pool.{
  Memory, Happens, Pool, goes_on_with, PoolStep, advances, begins_again, ReachablePool, pool_start,
  pool_after,
}

-- What a thread has yet to run at a place, with the exception if it has one.
abbrev pub program_at : Place → Exception → OnceProgram
program_at outside_call e = once_program
program_at waiting e = locks
program_at locked e = checks_again
program_at acting e = acts
program_at storing e = stores
program_at unlocking e = unlocks (done tt)
program_at unwinding e = unlocks (thrown e)
program_at returned e = ends (done tt)
program_at threw e = ends (thrown e)

-- The memory of a state.
abbrev pub memory_of : System → Memory
memory_of s = record { invoked = s.invoked; owner = s.owner; completed = s.completed }

pub record Matches (x : Pool) (s : System) : Type 0 where
  pub same_memory : x.memory ≡ memory_of s
  pub stands : (t : ℕ) → (e : Exception) × (x.program t ≡ program_at (s.place t) e)

-- A step of thread `t` in the relation that matches one of its calls.
abbrev pub Follows : Pool → System → ℕ → Memory → OnceProgram → Type 0
Follows x s t m p = (s' : System) × Step s s' × Matches (goes_on_with x t m p) s'

module _ (x : Pool) (s : System) (t : ℕ) (m : Memory) (p : OnceProgram) (c : Matches x s) where
  -- The thread goes to a place.
  moves :
      (s' : System) (q : Place) (e : Exception)
      → p ≡ program_at q e
      → m ≡ memory_of s'
      → s'.place ≡ s.place
      → Matches (goes_on_with x t m p) (goes s' t q)
  moves s' q e is_at same places = record {
    same_memory = same;
    stands = λ u. elim (Bool-cases (t == u)) [
      | inl here ↦ rw here (e, is_at)
      | inr other ↦ rw (other, places) (c.stands u)
    ];
  }

  arrives :
      (s' : System) (q : Place) (e : Exception)
      → Step s (goes s' t q)
      → p ≡ program_at q e
      → m ≡ memory_of s'
      → s'.place ≡ s.place
      → Follows x s t m p
  arrives s' q e step is_at same places = (goes s' t q, step, moves s' q e is_at same places)

  -- The memory is as it was.
  arrives_kept :
      (q : Place) (e : Exception)
      → Step s (goes s t q)
      → p ≡ program_at q e
      → m ≡ x.memory
      → Follows x s t m p
  arrives_kept q e step is_at same = arrives s q e step is_at (same ∙ c.same_memory) refl

  flag : {set : Bool} → set ≡ x.memory.invoked → s.invoked ≡ set
  flag i = sym (i ∙ ap (λ (z : Memory). z.invoked) c.same_memory)

  place-Follows :
      (q : Place) (e : Exception)
      → s.place t ≡ q
      → Advances (Happens t x.memory) (program_at q e) m p
      → Follows x s t m p
  place-Follows outside_call e at (true, (i, same), is_at) =
      arrives_kept returned e (load_true t at (flag i)) is_at same
  place-Follows outside_call e at (false, (i, same), is_at) =
      arrives_kept waiting e (load_false t at (flag i)) is_at same
  place-Follows waiting e at (a, (free, same), is_at) =
      arrives (record s { owner = some t }) locked e
        (take t at (sym (ap (λ (z : Memory). z.owner) c.same_memory) ∙ free)) is_at
        (same ∙ ap (λ (z : Memory). record z { owner = some t }) c.same_memory) refl
  place-Follows locked e at (true, (i, same), is_at) =
      arrives_kept unlocking e (again_true t at (flag i)) is_at same
  place-Follows locked e at (false, (i, same), is_at) =
      arrives_kept acting e (again_false t at (flag i)) is_at same
  place-Follows acting e at (done _, same, is_at) =
      arrives (record s { completed = suc s.completed }) storing e (act t at) is_at
        (same ∙ ap (λ (z : Memory). record z { completed = suc z.completed }) c.same_memory) refl
  place-Follows acting e at (thrown x, same, is_at) =
      arrives_kept unwinding x (act_throws t at) is_at same
  place-Follows acting e at (terminated, same, is_at) = elim same [ ]
  place-Follows acting e at (exited n, same, is_at) = elim same [ ]
  place-Follows storing e at (a, same, is_at) =
      arrives (record s { invoked = true }) unlocking e (store t at) is_at
        (same ∙ ap (λ (z : Memory). record z { invoked = true }) c.same_memory) refl
  place-Follows unlocking e at (a, same, is_at) =
      arrives (record s { owner = none }) returned e (unlock_done t at) is_at
        (same ∙ ap (λ (z : Memory). record z { owner = none }) c.same_memory) refl
  place-Follows unwinding e at (a, same, is_at) =
      arrives (record s { owner = none }) threw e (unlock_throws t at) is_at
        (same ∙ ap (λ (z : Memory). record z { owner = none }) c.same_memory) refl
  place-Follows returned e at a = elim a [ ]
  place-Follows threw e at a = elim a [ ]

  pub follows : Advances (Happens t x.memory) (x.program t) m p → Follows x s t m p
  follows a =
      let (e, is_at) = c.stands t in
      place-Follows (s.place t) e refl (subst (λ z. Advances (Happens t x.memory) z m p) is_at a)

-- A thread whose program has ended is out of operator().
ended_place :
    (q : Place) (e : Exception) (r : Outcome (Unit {0}))
    → program_at q e ≡ ends r
    → (q ≡ returned) ⊎ (q ≡ threw)
ended_place returned e r h = inl refl
ended_place threw e r h = inr refl
ended_place outside_call e r h = absurd (ground arith)
ended_place waiting e r h = absurd (ground arith)
ended_place locked e r h = absurd (ground arith)
ended_place acting e r h = absurd (ground arith)
ended_place storing e r h = absurd (ground arith)
ended_place unlocking e r h = absurd (ground arith)
ended_place unwinding e r h = absurd (ground arith)

step-Follows :
    (x x' : Pool) (s : System)
    → Matches x s
    → PoolStep x x'
    → (s' : System) × Step s s' × Matches x' s'
step-Follows x x' s c (advances t m p a) = follows x s t m p c a
step-Follows x x' s c (begins_again t r ended) =
    let (e, is_at) = c.stands t in
    (
      goes s t outside_call,
      calls_again t (ended_place (s.place t) e r (sym is_at ∙ ended)),
      moves x s t x.memory once_program c s outside_call e refl c.same_memory refl,
    )

-- Any number of threads that run the program of operator() a call at a time, in any order of their
-- calls, and with an action that returns or throws as it likes, are at each moment where the step
-- relation of Once/Threads can be: some reachable state of it has the same flag, the same owner of
-- the mutex and the same number of completed actions, and for each thread a place whose rest of the
-- program is that of the thread.
pub once_pool_refines : (x : Pool) → ReachablePool x → (s : System) × Reachable s × Matches x s
once_pool_refines x pool_start =
    (first_system, start, record { same_memory = refl; stands = λ t. (foreign, refl) })
once_pool_refines x' (pool_after x _ r step) =
    let (s, reachable, c) = once_pool_refines x r in
    let (s', thread_step, c') = step-Follows x x' s c step in
    (s', after s s' reachable thread_step, c')
