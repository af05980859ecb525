-- ===== src/Once.antt =====
-- sex/util/once.hpp: Once, an action that is run by its first call. This file has a call that no
-- other thread is in; Once/Program and Once/Pool have the calls of many threads.
pub mod Threads
pub mod Holder
pub mod Program
pub mod Pool
use sex.Common.{Bool, true, false, if◌then◌else◌}
use sex.Runtime.{Action, Method, this, set_this, outside, pure, ◌>>=◌, ◌>>◌}

-- Once, by its `invoked_`.
pub record Once : Type 0 where
  pub invoked : Bool

abbrev pub fresh_once : Once
fresh_once = record { invoked = false }

-- operator(): the two tests and the action between them.
unfoldable pub invoke : {W : Type 0} → Action W (Unit {0}) → Method Once W (Unit {0})
invoke action = do
  o ← this
  let locked = do
    p ← this
    let run = do outside action; set_this (record { invoked = true })
    if p.invoked then pure tt else run
  if o.invoked then pure tt else locked
