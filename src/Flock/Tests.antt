-- ===== src/Flock/Tests.antt =====
-- One lock file, open as descriptor 3: the world is the lock that the descriptor has.
use sex.Common.{Bool, ◌||◌, false, if◌then◌else◌, String}
use sex.Common.Int.{ℤ, ◌==ℤ◌}
use sex.Runtime.{Reply, Throws}
use sex.Fd.Tests.{table_sys, table_closing, two_open}
use sex.Flock.{open_locked}
use sex.Flock.Descriptors.{Opening, Locked, open_locked_cases}
use sex.Common.{◌≡◌, ◌≢◌, ◌⊎◌, refl, arith}
use sex.Common.Int.{pos, minus_one}
use sex.Runtime.{done, terminated, thrown, Sys}
use sex.Result.{failure}
use sex.Fd.{holder}
use sex.Flock.{
  r_lock, rw_lock, state_r_lock, state_unlocked, to_state, lock_ex, lock_sh, FileLockGuard,
  LockCalls, lock, unlock, destroy,
}
use sex.Flock.Laws.{
  Mode, free, shared, exclusive, mode_of, Locking, lock_cases, lock_at, unlock_after_r_lock,
}

abbrev lock_sys : Sys Mode
lock_sys = record {
  format = λ f args. f;
  strerror = λ n. "";
  error_text = λ n. "";
  close = λ fd w. (record { value = pos 0; errno = 0 }, free);
}

abbrev one_file : LockCalls Mode
one_file = record {
  sys = lock_sys;
  open_rdonly = λ path w. (record { value = pos 3; errno = 0 }, w);
  flock = λ fd op w. (record { value = pos 0; errno = 0 }, mode_of op);
}

abbrev one_file_locking : Locking one_file
one_file_locking = record { lock_mode = λ w fd. w; flock_sets = λ w fd op h. refl }

abbrev fresh_guard : FileLockGuard
fresh_guard = record { fd = holder (pos 3); current_state = state_unlocked }

-- After the read lock and `unlock` the file is still locked.
still_shared : (unlock one_file (lock one_file r_lock (fresh_guard, free)).1).1.1 ≡ shared
unfolding lock unlock
still_shared = refl

-- The destructor does release it, by closing the file.
released_at_last : (destroy one_file (lock one_file r_lock (fresh_guard, free)).1).1.1 ≡ free
unfolding lock destroy
released_at_last = refl

lock_cases_example :
    let g = fresh_guard in
    (g.current_state.underlying ≢ 0) × (lock one_file rw_lock (g, free) ≡ (terminated, (g, free)))
    ⊎ (g.current_state.underlying ≡ 0)
      × (pos 0 ≡ minus_one)
      × (lock one_file rw_lock (g, free) ≡ (
        thrown (
            failure lock_sys "flock(fd_.getInt(), flag)"
              (record { value = pos 0; errno = 0 })
              lock_at),
        (g, exclusive),
      ))
    ⊎ (g.current_state.underlying ≡ 0)
      × (lock one_file rw_lock (g, free)
          ≡ (done tt, (record g { current_state = to_state rw_lock }, exclusive)))
      × (exclusive ≡ mode_of lock_ex)
lock_cases_example = lock_cases one_file one_file_locking fresh_guard free rw_lock

abbrev reader : FileLockGuard
reader = record { fd = holder (pos 3); current_state = state_r_lock }

unlock_after_r_lock_example :
    (unlock one_file (reader, shared) ≡ (done tt, (reader, shared)))
    × (shared ≡ mode_of lock_sh)
    × ((lock one_file rw_lock (reader, shared)).0 ≢ terminated)
unfolding lock
unlock_after_r_lock_example =
    unlock_after_r_lock one_file one_file_locking fresh_guard free reader shared refl

-- A process whose open gives descriptor 5, unless it is open.
abbrev table_open : String → (ℤ → Bool) → Reply × (ℤ → Bool)
table_open path w =
    if w (pos 5)
    then (record { value = minus_one; errno = 24 }, w)
    else (record { value = pos 5; errno = 0 }, λ g. w g || pos 5 ==ℤ g)

abbrev pub table_locks : LockCalls (ℤ → Bool)
table_locks = record {
  sys = table_sys;
  open_rdonly = table_open;
  flock = λ fd op w. (record { value = minus_one; errno = 4 }, w);
}

pub table_opens :
    (path : String) (w : ℤ → Bool) (g : ℤ)
    → let (reply, w') = table_open path w in
      reply.value ≢ minus_one → (w reply.value ≡ false) × (w' g ≡ (w g || reply.value ==ℤ g))
table_opens path w g h = ground arith

pub table_fails :
    (path : String) (w : ℤ → Bool) (g : ℤ)
    → (table_open path w).0.value ≡ minus_one
    → (table_open path w).1 g ≡ w g
table_fails path w g h = ground arith

abbrev pub table_opening : Opening table_locks table_closing
table_opening = record {
  opens = table_opens;
  open_fails = table_fails;
  flock_keeps = λ w fd op g. refl;
}

-- flock fails, and the new descriptor is closed again.
open_locked_cases_example :
    ((g : FileLockGuard) × (w' : ℤ → Bool) × (open_locked table_locks "/tmp" r_lock two_open
        ≡ (done g, w'))
      × Locked table_locks table_closing table_opening "/tmp" r_lock two_open (g, w'))
    ⊎ Throws (open_locked table_locks "/tmp" r_lock two_open).0
      × ((n : ℤ)
          → n ≢ minus_one
          → (open_locked table_locks "/tmp" r_lock two_open).1 n ≡ two_open n)
open_locked_cases_example =
    open_locked_cases table_locks table_closing table_opening "/tmp" r_lock two_open
