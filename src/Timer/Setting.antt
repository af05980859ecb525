-- ===== src/Timer/Setting.antt =====
-- What a timer is set to, by `set`, `cancel` and `getTimerSpec` (sex/util/timer_fd.hpp).
use sex.Common.{◌≡◌, ◌≢◌, ◌⊎◌, inl, inr, arith, ap, ◌∙◌, Bool-cases}
use sex.Common.Int.{minus_one, ◌==ℤ◌, ==ℤ→eq, ==ℤ→ne, ==ℤ_ne}
use sex.Runtime.{done, terminated, Throws}
use sex.Fd.{get_int}
use sex.Timer.{
  ITimerSpec, TimerSpec, TimerCalls, TimerFd, zero_spec, set, get_timer_spec, to_itimer_spec,
  from_itimer_spec,
}
use sex.Timer.Spec.{from_itimer_spec-to_itimer_spec}

-- What is documented of one timer: `setting` is the time left and the interval at a moment;
-- timerfd_settime, where it succeeds, stores it and replaces it, and timerfd_gettime stores it.
pub record Setting {W : Type 0} (k : TimerCalls W) (t : TimerFd) : Type 0 where
  pub setting : W → ITimerSpec
  pub settime_sets :
      (new prev : ITimerSpec) (w : W)
      → let ((reply, stored), w') = k.timerfd_settime (get_int t.fd) new prev w in
        reply.value ≢ minus_one → (stored ≡ setting w) × (setting w' ≡ new)
  pub gettime_gets :
      (spec : ITimerSpec) (w : W)
      → let ((reply, stored), w') = k.timerfd_gettime (get_int t.fd) spec w in
        reply.value ≢ minus_one → (stored ≡ setting w) × (setting w' ≡ setting w)

module _ {W : Type 0} (k : TimerCalls W) (t : TimerFd) (s : Setting k t) where
  open s use {setting, settime_sets, gettime_gets}
  open k use {timerfd_settime, timerfd_gettime}

  set_fine :
      (spec : TimerSpec) (w : W)
      → let ((reply, stored), w') =
          timerfd_settime (get_int t.fd) (to_itimer_spec spec) zero_spec w in
        reply.value ≢ minus_one
        → (set k spec (t, w) ≡ (done (from_itimer_spec (setting w)), (t, w')))
          × (setting w' ≡ to_itimer_spec spec)
  unfolding set
  set_fine spec w ok =
      let (stored, now) = settime_sets (to_itimer_spec spec) zero_spec w ok in
      (ground (arith, ==ℤ_ne _ _ ok, stored), now)

  set_fails :
      (spec : TimerSpec) (w : W)
      → let ((reply, stored), w') =
          timerfd_settime (get_int t.fd) (to_itimer_spec spec) zero_spec w in
        reply.value ≡ minus_one → set k spec (t, w) ≡ (terminated, (t, w'))
  unfolding set
  set_fails spec w e = ground arith

  -- getTimerSpec throws where timerfd_gettime fails, and returns what was set where not.
  get_cases :
      (spec : TimerSpec) (w : W)
      → setting w ≡ to_itimer_spec spec
      → let reply = (timerfd_gettime (get_int t.fd) zero_spec w).0.0 in
        (reply.value ≡ minus_one) × (Throws (get_timer_spec k (t, w)).0)
        ⊎ (reply.value ≢ minus_one) × ((get_timer_spec k (t, w)).0 ≡ done spec)
  unfolding get_timer_spec
  get_cases spec w e =
      let reply = (timerfd_gettime (get_int t.fd) zero_spec w).0.0 in
      elim (Bool-cases (reply.value ==ℤ minus_one)) [
        | inl f ↦ inl (==ℤ→eq _ _ f, ground arith)
        | inr f ↦
            let ok = ==ℤ→ne _ _ f in
            let (stored, same) = gettime_gets zero_spec w ok in
            inr (ok, ground (arith, stored, e, from_itimer_spec-to_itimer_spec spec))
      ]

  set_cases :
      (prev next : TimerSpec) (w : W)
      → setting w ≡ to_itimer_spec prev
      → let ((reply, stored), w') =
          timerfd_settime (get_int t.fd) (to_itimer_spec next) zero_spec w in
        (reply.value ≡ minus_one) × (set k next (t, w) ≡ (terminated, (t, w')))
        ⊎ (reply.value ≢ minus_one) × (set k next (t, w) ≡ (done prev, (t, w')))
  set_cases prev next w e =
      let ((reply, stored), w') =
        timerfd_settime (get_int t.fd) (to_itimer_spec next) zero_spec w in
      elim (Bool-cases (reply.value ==ℤ minus_one)) [
        | inl f ↦ inl (==ℤ→eq _ _ f, set_fails next w (==ℤ→eq _ _ f))
        | inr f ↦
            let ok = ==ℤ→ne _ _ f in
            inr (
              ok,
              (set_fine next w ok).0
                  ∙ ap (λ x. (done (from_itimer_spec x), (t, w'))) e
                  ∙ ap (λ x. (done x, (t, w'))) (from_itimer_spec-to_itimer_spec prev),
            )
      ]

  -- If the kernel's timer keeps what it is given: `set` ends the program if timerfd_settime fails;
  -- otherwise it returns what the timer was set to until then, and in the world that it leaves, for all durations:
  -- a call of `getTimerSpec` throws if timerfd_gettime fails, and if not, it returns the very
  -- TimerSpec that was set; and a second `set` ends the program if timerfd_settime fails, and if
  -- not, it returns that TimerSpec too.
  pub set-get_timer_spec :
      (spec next : TimerSpec) (w : W)
      → let ((reply, stored), w') =
          timerfd_settime (get_int t.fd) (to_itimer_spec spec) zero_spec w in
        let read = (timerfd_gettime (get_int t.fd) zero_spec w').0.0 in
        let ((again, before), w'') =
          timerfd_settime (get_int t.fd) (to_itimer_spec next) zero_spec w' in
        (reply.value ≡ minus_one) × (set k spec (t, w) ≡ (terminated, (t, w')))
        ⊎ (reply.value ≢ minus_one)
          × (set k spec (t, w) ≡ (done (from_itimer_spec (setting w)), (t, w')))
          × ((read.value ≡ minus_one) × Throws (get_timer_spec k (t, w')).0
              ⊎ (read.value ≢ minus_one) × ((get_timer_spec k (t, w')).0 ≡ done spec))
          × ((again.value ≡ minus_one) × (set k next (t, w') ≡ (terminated, (t, w'')))
              ⊎ (again.value ≢ minus_one) × (set k next (t, w') ≡ (done spec, (t, w''))))
  set-get_timer_spec spec next w =
      let ((reply, stored), w') =
        timerfd_settime (get_int t.fd) (to_itimer_spec spec) zero_spec w in
      elim (Bool-cases (reply.value ==ℤ minus_one)) [
        | inl e ↦ inl (==ℤ→eq _ _ e, set_fails spec w (==ℤ→eq _ _ e))
        | inr e ↦
            let ok = ==ℤ→ne _ _ e in
            let (sets, now) = set_fine spec w ok in
            inr (ok, sets, get_cases spec w' now, set_cases spec next w' now)
      ]
