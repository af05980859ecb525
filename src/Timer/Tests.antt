-- ===== src/Timer/Tests.antt =====
-- A kernel with one timer: the world is the `itimerspec` that is set.
use sex.Common.{◌⊎◌}
use sex.Fd.{holder}
use sex.Runtime.{done, terminated, Throws}
use sex.Timer.{TimerFd, set, get_timer_spec, zero_spec}
use sex.Timer.Setting.{Setting, set-get_timer_spec}
use sex.Common.{ℕ, ◌≤◌, ◌<◌, ◌^◌, ◌≡◌, ◌≢◌, refl, arith}
use sex.Common.Int.{pos, negsuc, minus_one, pos_part, neg_part, ◌*ℕ◌, quot, rem}
use sex.Runtime.{Sys, Reply}
use sex.Timer.{
  nano, ITimerSpec, TimerSpec, TimerCalls, to_time_spec, to_itimer_spec, from_itimer_spec,
}
use sex.Timer.Spec.{to_time_spec_bounds}

abbrev timer_sys : Sys ITimerSpec
timer_sys = record {
  format = λ f args. f;
  strerror = λ n. "";
  error_text = λ n. "";
  close = λ fd w. (record { value = pos 0; errno = 0 }, w);
}

-- read answers as given.
abbrev one_timer : Reply → ℕ → TimerCalls ITimerSpec
one_timer reply expirations = record {
  sys = timer_sys;
  timerfd_create = λ flags w. (record { value = pos 3; errno = 0 }, w);
  read_u64 = λ fd cnt w. ((reply, expirations), w);
  timerfd_settime = λ fd new prev w. ((record { value = pos 0; errno = 0 }, w), new);
  timerfd_gettime = λ fd spec w. ((record { value = pos 0; errno = 0 }, w), w);
}

abbrev second_and_half : TimerSpec
second_and_half = record { first_expiration = pos 1_500_000_000; interval = negsuc 1_999_999_999 }

converted : to_itimer_spec second_and_half ≡ record {
  it_interval = record { tv_sec = negsuc 1; tv_nsec = pos 0 };
  it_value = record { tv_sec = pos 1; tv_nsec = pos 500_000_000 };
}
unfolding to_itimer_spec to_time_spec quot rem
converted = refl

to_time_spec_bounds_example :
    let d = negsuc 1_999_999_999 in
    let t = to_time_spec d in
    (pos_part t.tv_nsec < nano)
    × (neg_part t.tv_nsec < nano)
    × (pos_part (t.tv_sec *ℕ nano) ≤ pos_part d)
    × (neg_part (t.tv_sec *ℕ nano) ≤ neg_part d)
    × (pos_part t.tv_sec < 2 ^ 63)
    × (neg_part t.tv_sec < 2 ^ 63)
    × (neg_part t.tv_sec ≤ neg_part d)
    × (neg_part t.tv_nsec ≤ neg_part d)
to_time_spec_bounds_example =
    to_time_spec_bounds (negsuc 1_999_999_999) (ground arith) (ground arith)

abbrev timer : TimerCalls ITimerSpec
timer = one_timer (record { value = pos 8; errno = 0 }) 1

abbrev timer_setting : Setting timer (holder (pos 3))
timer_setting = record {
  setting = λ w. w;
  settime_sets = λ new prev w h. (refl, refl);
  gettime_gets = λ spec w h. (refl, refl);
}

set-get_timer_spec_example :
    let t : TimerFd = holder (pos 3) in
    let w' = to_itimer_spec second_and_half in
    (pos 0 ≡ minus_one) × (set timer second_and_half (t, zero_spec) ≡ (terminated, (t, w')))
    ⊎ (pos 0 ≢ minus_one)
      × (set timer second_and_half (t, zero_spec) ≡ (done (from_itimer_spec zero_spec), (t, w')))
      × ((pos 0 ≡ minus_one) × Throws (get_timer_spec timer (t, w')).0
          ⊎ (pos 0 ≢ minus_one) × ((get_timer_spec timer (t, w')).0 ≡ done second_and_half))
      × ((pos 0 ≡ minus_one) × (set timer second_and_half (t, w') ≡ (terminated, (t, w')))
          ⊎ (pos 0 ≢ minus_one)
            × (set timer second_and_half (t, w') ≡ (done second_and_half, (t, w'))))
set-get_timer_spec_example =
    set-get_timer_spec timer (holder (pos 3)) timer_setting second_and_half second_and_half
      zero_spec
