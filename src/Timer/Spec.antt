-- ===== src/Timer/Spec.antt =====
-- Durations and the kernel's seconds and nanoseconds (sex/util/timer_fd.hpp).
use sex.Common.{◌≤◌, ◌<◌, ◌^◌, ◌≡◌, arith}
use sex.Common.Int.{ℤ, pos, negsuc, pos_part, neg_part, ◌*ℕ◌, quot, rem, quot-rem}
use sex.Timer.{nano, TimerSpec, to_time_spec, from_time_spec, to_itimer_spec, from_itimer_spec}

from_time_spec-to_time_spec : (d : ℤ) → from_time_spec (to_time_spec d) ≡ d
unfolding from_time_spec to_time_spec
from_time_spec-to_time_spec d = quot-rem d nano

-- Converting a TimerSpec to an itimerspec and back gives it again, for all durations, negative
-- ones too.
pub from_itimer_spec-to_itimer_spec : (s : TimerSpec) → from_itimer_spec (to_itimer_spec s) ≡ s
unfolding from_itimer_spec to_itimer_spec
from_itimer_spec-to_itimer_spec s = λ i. record {
  first_expiration = from_time_spec-to_time_spec s.first_expiration i;
  interval = from_time_spec-to_time_spec s.interval i;
}

-- For a duration that fits 64 bits, neither conversion leaves 64 bits on the way: the seconds, the
-- nanoseconds and the product of the seconds with 10^9 all lie between -2^63 and 2^63; the
-- nanoseconds are fewer than 10^9 in absolute value, and no part of a duration that is zero or more
-- is negative.
pub to_time_spec_bounds :
    (d : ℤ)
    → pos_part d < 2 ^ 63
    → neg_part d ≤ 2 ^ 63
    → let t = to_time_spec d in
      (pos_part t.tv_nsec < nano)
      × (neg_part t.tv_nsec < nano)
      × (pos_part (t.tv_sec *ℕ nano) ≤ pos_part d)
      × (neg_part (t.tv_sec *ℕ nano) ≤ neg_part d)
      × (pos_part t.tv_sec < 2 ^ 63)
      × (neg_part t.tv_sec < 2 ^ 63)
      × (neg_part t.tv_sec ≤ neg_part d)
      × (neg_part t.tv_nsec ≤ neg_part d)
unfolding to_time_spec quot rem ◌*ℕ◌
to_time_spec_bounds (pos n) p q = ground arith
to_time_spec_bounds (negsuc n) p q = ground arith
