-- ===== src/RLimit/Laws.antt =====
-- What is set is read back (sex/util/rlimit.hpp).
use sex.Common.{ℕ, ◌==◌, if◌then◌else◌, ◌≡◌, ◌≢◌, ◌⊎◌, inl, inr, Bool-cases, arith, ap}
use sex.Common.Int.{minus_one, ==ℤ_ne}
use sex.Runtime.{done}
use sex.Result.{ok}
use sex.RLimit.{ResourceType, resource_number, ResourceLimit, LimitCalls, set_rlimit, get_rlimit}

-- What is documented of the two calls: setrlimit64, when it succeeds, sets the limits of its
-- resource and no others, and getrlimit64 reports them and changes none.
pub record Limits {W : Type 0} (k : LimitCalls W) : Type 0 where
  pub limits : W → ℕ → ResourceLimit
  pub set_sets :
      (w : W) (n m : ℕ) (l : ResourceLimit)
      → (k.setrlimit64 n l w).0.value ≢ minus_one
      → limits (k.setrlimit64 n l w).1 m ≡ (if n == m then l else limits w m)
  pub get_reports :
      (w : W) (t : ResourceType) (l : ResourceLimit)
      → ((k.getrlimit64 (resource_number t) l w).0.0.value ≢ minus_one)
        × ((k.getrlimit64 (resource_number t) l w).0.1 ≡ limits w (resource_number t))
        × ((k.getrlimit64 (resource_number t) l w).1 ≡ w)

number_injective : (t u : ResourceType) → resource_number t ≡ resource_number u → t ≡ u
number_injective t u e = ground arith

module _ {W : Type 0} (k : LimitCalls W) (l : Limits k) (w : W) where
  open k use {setrlimit64}
  open l use {limits}

  -- If the calls do what is documented, and setrlimit64 succeeds: `SetRLimit` of `t` returns Ok, and
  -- `GetRLimit` of `u` afterwards returns Ok of the limits that were set if `t` and `u` are the same
  -- resource, and of what `u` had before if they are not, and leaves the world as it is.
  pub set_rlimit-get_rlimit :
      (t u : ResourceType) (soft_limit hard_limit : ℕ)
      → let lim : ResourceLimit = record { soft = soft_limit; hard = hard_limit } in
        let (reply, w') = setrlimit64 (resource_number t) lim w in
        reply.value ≢ minus_one
        → (set_rlimit k t soft_limit hard_limit w ≡ (done (ok tt), w'))
          × ((t ≡ u) × (get_rlimit k u w' ≡ (done (ok lim), w'))
              ⊎ (t ≢ u) × (get_rlimit k u w' ≡ (done (ok (limits w (resource_number u))), w')))
  unfolding set_rlimit get_rlimit
  set_rlimit-get_rlimit t u soft_limit hard_limit fine =
      let lim : ResourceLimit = record { soft = soft_limit; hard = hard_limit } in
      let w' = (setrlimit64 (resource_number t) lim w).1 in
      let zero_lim : ResourceLimit = record { soft = 0; hard = 0 } in
      let got = l.get_reports w' u zero_lim in
      let set = l.set_sets w (resource_number t) (resource_number u) lim fine in
      (
        ground (arith, ==ℤ_ne _ _ fine),
        elim (Bool-cases (resource_number t == resource_number u)) [
          | inl e ↦ inl (
            number_injective t u (ground arith),
            ground (arith, ==ℤ_ne _ _ got.0, got.1, got.2, set),
          )
          | inr e ↦ inr (
            (λ same. ground (arith, ap resource_number same)),
            ground (arith, ==ℤ_ne _ _ got.0, got.1, got.2, set),
          )
        ],
      )
