-- ===== src/Timer.antt =====
-- sex/util/timer_fd.hpp: TimerFd, a timer behind a descriptor. Durations are counts of
-- nanoseconds.
pub mod Spec
pub mod Calls
pub mod Setting
mod Tests
use sex.Common.{ℕ, String, Bool, ◌==◌, ◌&&◌, ◌||◌, ◌^◌, bit_xor}
use sex.Common.Int.{ℤ, pos, minus_one, ◌==ℤ◌, ◌+ℤ◌, ◌*ℕ◌, quot, rem}
use sex.Runtime.{
  Outcome, done, Action, Method, Reply, Syscall, Sys, this, outside, noexcept, pure, ◌>>=◌, ◌>>◌,
  at,
}
use sex.Errors.{sex_assert}
use sex.Result.{sex_syscall, syscall_result, unwrap, ensure}
use sex.Fd.{FdHolder, holder, get_int}

-- std::nano::den
abbrev pub nano : ℕ
nano = 1_000_000_000

-- timespec and itimerspec
pub record TimeSpec : Type 0 where
  pub tv_sec : ℤ
  pub tv_nsec : ℤ

pub record ITimerSpec : Type 0 where
  pub it_interval : TimeSpec
  pub it_value : TimeSpec

-- TimerSpec
pub record TimerSpec : Type 0 where
  pub first_expiration : ℤ
  pub interval : ℤ

-- ToTimeSpec: `/` and `%` round towards zero.
pub to_time_spec : ℤ → TimeSpec
to_time_spec d = record { tv_sec = quot d nano; tv_nsec = rem d nano }

-- FromTimeSpec
pub from_time_spec : TimeSpec → ℤ
from_time_spec d = d.tv_nsec +ℤ d.tv_sec *ℕ nano

-- FromITimerSpec
pub from_itimer_spec : ITimerSpec → TimerSpec
from_itimer_spec spec = record {
  first_expiration = from_time_spec spec.it_value;
  interval = from_time_spec spec.it_interval;
}

-- ToITimerSpec
pub to_itimer_spec : TimerSpec → ITimerSpec
to_itimer_spec spec = record {
  it_interval = to_time_spec spec.interval;
  it_value = to_time_spec spec.first_expiration;
}

-- TimerFd::Flags
abbrev pub nonblocking : ℕ
nonblocking = 2 ^ 11

abbrev pub cloexec_bit : ℕ
cloexec_bit = 19

abbrev pub no_close_on_exec : ℕ
no_close_on_exec = 2 ^ cloexec_bit

abbrev pub eagain : ℕ
eagain = 11

abbrev zero_spec : ITimerSpec
zero_spec = record {
  it_interval = record { tv_sec = pos 0; tv_nsec = pos 0 };
  it_value = record { tv_sec = pos 0; tv_nsec = pos 0 };
}

-- The system calls: timerfd_create on CLOCK_MONOTONIC; read of eight bytes into a variable, with
-- its value before and after; timerfd_settime and timerfd_gettime, with the `itimerspec` that they
-- fill in, before and after.
pub record TimerCalls (W : Type 0) : Type 0 where
  pub sys : Sys W
  pub timerfd_create : ℕ → Syscall W
  pub read_u64 : ℤ → ℕ → W → (Reply × ℕ) × W
  pub timerfd_settime : ℤ → ITimerSpec → ITimerSpec → W → (Reply × ITimerSpec) × W
  pub timerfd_gettime : ℤ → ITimerSpec → W → (Reply × ITimerSpec) × W

abbrev timer_hpp : String
timer_hpp = "sex/util/timer_fd.hpp"

-- TimerFd is an FdHolder with more methods.
abbrev pub TimerFd : Type 0
TimerFd = FdHolder

module _ {W : Type 0} (k : TimerCalls W) where
  open k use {sys, timerfd_create, read_u64, timerfd_settime, timerfd_gettime}

  -- TimerFd(Flags)
  pub create : ℕ → Action W TimerFd
  unfolding sex_syscall unwrap
  create flags = do
    r ←
        sex_syscall sys "timerfd_create(CLOCK_MONOTONIC, flags ^ NO_CLOSE_ON_EXEC)"
          (timerfd_create (bit_xor flags no_close_on_exec)) (at 28 "TimerFd" timer_hpp)
    fd ← unwrap r
    pure (holder fd)

  -- wait
  unfoldable pub wait : Method TimerFd W ℕ
  unfolding sex_assert
  wait (t, w) =
      let ((reply, cnt), w') = read_u64 (get_int t.fd) 0 w in
      (sex_assert sys "ret == sizeof(cnt) || (ret == -1 && errno == EAGAIN)"
            ((reply.value ==ℤ pos 8) || (reply.value ==ℤ minus_one) && (reply.errno == eagain))
            (at 37 "wait" timer_hpp)
          >> pure cnt)
        (t, w')

  -- The body of `set(TimerSpec)`, without its `noexcept`.
  set_body : TimerSpec → Method TimerFd W TimerSpec
  unfolding syscall_result ensure
  set_body spec (t, w) =
      let ((reply, prev), w') = timerfd_settime (get_int t.fd) (to_itimer_spec spec) zero_spec w in
      (ensure (
            syscall_result sys "timerfd_settime(getInt(), 0, &tmp, &prev)" reply
              (at 53 "set" timer_hpp))
          >> pure (from_itimer_spec prev))
        (t, w')

  -- set(TimerSpec) noexcept
  pub set : TimerSpec → Method TimerFd W TimerSpec
  unfolding set_body
  set spec = noexcept (set_body spec)

  -- set(Duration, Duration), set(Duration) and cancel()
  set_periodic : ℤ → ℤ → Method TimerFd W TimerSpec
  unfolding set
  set_periodic first_expiration interval =
      set (record { first_expiration = first_expiration; interval = interval })

  set_once : ℤ → Method TimerFd W TimerSpec
  unfolding set_periodic
  set_once first_expiration = set_periodic first_expiration (pos 0)

  unfoldable cancel : Method TimerFd W TimerSpec
  unfolding set_once
  cancel = set_once (pos 0)

  -- getTimerSpec
  unfoldable get_timer_spec : Method TimerFd W TimerSpec
  unfolding syscall_result ensure
  get_timer_spec (t, w) =
      let ((reply, spec), w') = timerfd_gettime (get_int t.fd) zero_spec w in
      (ensure (
            syscall_result sys "timerfd_gettime(getInt(), &spec)" reply
              (at 63 "getTimerSpec" timer_hpp))
          >> pure (from_itimer_spec spec))
        (t, w')
