-- ===== src/ExitStatus/Laws.antt =====
-- The readers of an ExitStatus (sex/util/exit_status.cpp).
use sex.Common.{true, ◌≡◌, ◌≢◌, ◌⊎◌, arith}
use sex.Runtime.{done, Panics, Sys}
use sex.ExitStatus.{ExitStatus, is_exited, is_signaled, get_exit_code, get_signal}

module _ {W : Type 0} (sys : Sys W) {S : Type 0} (s : ExitStatus) (state : S) where
  -- Of a status exactly one of `isExited` and `isSignaled` holds; the reader of that kind returns
  -- the value, the other one panics, and neither changes the state.
  readers_cases :
      (is_exited s ≡ true)
        × (is_signaled s ≢ true)
        × (get_exit_code sys s state ≡ (done s.value, state))
        × Panics (get_signal sys s state).0
      ⊎ (is_exited s ≢ true)
        × (is_signaled s ≡ true)
        × (get_signal sys s state ≡ (done s.value, state))
        × Panics (get_exit_code sys s state).0
  unfolding get_exit_code get_signal
  readers_cases = ground arith
