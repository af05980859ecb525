-- ===== src/Timer/Calls.antt =====
-- The calls on a timer, on every branch (sex/util/timer_fd.hpp).
use sex.Common.{
  ℕ, ◌≡◌, ◌≢◌, ◌⊎◌, inl, inr, not, ap, ◌∙◌, ◌==◌, ◌&&◌, if◌then◌else◌, bit_xor, arith, Bool-cases,
}
use sex.Common.Int.{pos, minus_one, ◌==ℤ◌, ==ℤ→eq, ==ℤ→ne, ==ℤ_self}
use sex.Common.Bits.{test_bit, test_bit-flip}
use sex.Runtime.{done, thrown, terminated, Panics, SourceLocation, at}
use sex.Result.{failure}
use sex.Fd.{holder, get_int}
use sex.Timer.{
  TimerFd, TimerSpec, TimerCalls, create, wait, set, cloexec_bit, no_close_on_exec, eagain,
  zero_spec, to_itimer_spec, from_itimer_spec,
}
use sex.Timer.Spec.{from_itimer_spec-to_itimer_spec}

abbrev pub create_at : SourceLocation
create_at = at 28 "TimerFd" "sex/util/timer_fd.hpp"

module _ {W : Type 0} (k : TimerCalls W) (flags : ℕ) (w : W) where
  open k use {sys, timerfd_create}

  -- The constructor calls timerfd_create once, with the caller's flags in which the close-on-exec
  -- bit is turned round, so that it is set unless NO_CLOSE_ON_EXEC is asked for, and every other
  -- flag is passed on as it is; it owns the descriptor, or throws if there is none.
  pub create_cases :
      (f : ℕ) × ((j : ℕ)
        → test_bit f j ≡ (if cloexec_bit == j then not (test_bit flags j) else test_bit flags j))
      × let (reply, w') = timerfd_create f w in
        ((reply.value ≢ minus_one) × (create k flags w ≡ (done (holder reply.value), w'))
          ⊎ (reply.value ≡ minus_one)
            × (create k flags w ≡ (
              thrown (
                  failure sys "timerfd_create(CLOCK_MONOTONIC, flags ^ NO_CLOSE_ON_EXEC)" reply
                    create_at),
              w',
            )))
  unfolding create
  create_cases =
      let f = bit_xor flags no_close_on_exec in
      (
        f,
        test_bit-flip flags cloexec_bit,
        elim (Bool-cases ((timerfd_create f w).0.value ==ℤ minus_one)) [
          | inl e ↦ inr (==ℤ→eq _ _ e, ground arith)
          | inr e ↦ inl (==ℤ→ne _ _ e, ground arith)
        ],
      )

module _ {W : Type 0} (k : TimerCalls W) (t : TimerFd) (w : W) where
  open k use {read_u64, timerfd_settime}

  -- `wait` returns what was read if read gave eight bytes, and the untouched variable if read
  -- failed with EAGAIN; every other reply makes it panic.
  pub wait_cases :
      let ((reply, cnt), w') = read_u64 (get_int t.fd) 0 w in
      ((reply.value ≡ pos 8) ⊎ (reply.value ≡ minus_one) × (reply.errno ≡ eagain))
        × (wait k (t, w) ≡ (done cnt, (t, w')))
      ⊎ (reply.value ≢ pos 8)
        × ¬ ((reply.value ≡ minus_one) × (reply.errno ≡ eagain))
        × Panics (wait k (t, w)).0
  unfolding wait
  wait_cases =
      let reply = (read_u64 (get_int t.fd) 0 w).0.0 in
      elim (Bool-cases (reply.value ==ℤ pos 8)) [
        | inl e ↦ inl (inl (==ℤ→eq _ _ e), ground arith)
        | inr e ↦ elim (Bool-cases ((reply.value ==ℤ minus_one) && (reply.errno == eagain))) [
          | inl a ↦ inl (inr (==ℤ→eq _ _ (ground arith), ground arith), ground arith)
          | inr n ↦ inr (==ℤ→ne _ _ e, (λ b. ground (arith, ==ℤ_self minus_one)), ground arith)
        ]
      ]

  -- `set` hands the kernel the new times and returns the ones that the kernel reports as old; it is
  -- noexcept, so a failed system call ends the program.
  pub set_cases :
      (new old : TimerSpec)
      → (timerfd_settime (get_int t.fd) (to_itimer_spec new) zero_spec w).0.1 ≡ to_itimer_spec old
      → let ((reply, prev), w') = timerfd_settime (get_int t.fd) (to_itimer_spec new) zero_spec w in
        (reply.value ≢ minus_one) × (set k new (t, w) ≡ (done old, (t, w')))
        ⊎ (reply.value ≡ minus_one) × (set k new (t, w) ≡ (terminated, (t, w')))
  unfolding set
  set_cases new old e =
      let called = timerfd_settime (get_int t.fd) (to_itimer_spec new) zero_spec w in
      let back : from_itimer_spec called.0.1 ≡ old =
        ap from_itimer_spec e ∙ from_itimer_spec-to_itimer_spec old in
      elim (Bool-cases (called.0.0.value ==ℤ minus_one)) [
        | inl failed ↦ inr (==ℤ→eq _ _ failed, ground arith)
        | inr fine ↦ inl (==ℤ→ne _ _ fine, ground (arith, back))
      ]
