-- ===== src/ExitStatus/Tests.antt =====
-- A status with a signal.
use sex.Common.{ℕ, ◌≡◌, refl}
use sex.Common.Int.{pos}
use sex.Runtime.{done}
use sex.ExitStatus.{get_signal, signaled_status}
use sex.Process.Tests.{plain_sys}

abbrev start : ℕ
start = 5

signal_read : get_signal plain_sys (signaled_status (pos 9)) start ≡ (done (pos 9), start)
unfolding get_signal
signal_read = refl
