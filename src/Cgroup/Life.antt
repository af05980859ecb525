-- ===== src/Cgroup/Life.antt =====
-- Which files a new control group writes, and what its statistics mean
-- (sex/cgroup_controller.cpp).
use sex.Common.{String, true, if◌then◌else◌, List, [], ◌∷◌, ◌++◌, ◌≡◌, arith}
use sex.Common.Int.{ℤ}
use sex.Runtime.{done, Arg, str, num, int}
use sex.Cgroup.{Builder, CgroupCalls, CgroupController, get_controller_path}
use sex.Cgroup.Control.{set_limits, to_i64, has_limit}

-- A file of the group and what is written to it.
abbrev pub Write : Type 0
Write = String × List Arg

-- What the options ask for besides the CPU: memory.max, memory.high, pids.max, where they are set.
abbrev pub planned_numbers : Builder → List Write
planned_numbers o =
    (if has_limit o.memory_limit_max then ("memory.max", num o.memory_limit_max ∷ []) ∷ [] else [])
    ++ (if has_limit o.memory_limit_high
        then ("memory.high", num o.memory_limit_high ∷ []) ∷ []
        else [])
    ++ (if has_limit o.pids_limit then ("pids.max", num o.pids_limit ∷ []) ∷ [] else [])

-- What is written to cpu.max.
abbrev pub cpu_write : ℤ → ℤ → Write
cpu_write limit window = ("cpu.max", int limit ∷ str " " ∷ int window ∷ [])

-- What the options ask for: the limits that are set, in the order max, high, pids, cpu.
abbrev pub planned : Builder → List Write
planned o =
    planned_numbers o
    ++ (if has_limit o.cpu_window_limit.limit_us
        then cpu_write (to_i64 o.cpu_window_limit.limit_us) (to_i64 o.cpu_window_limit.window_us)
          ∷ []
        else [])

module _ {W : Type 0} (k : CgroupCalls W) (c : CgroupController) where
  open k use {write_file}

  -- The world after the writes are made in their order, with `good()` after each.
  pub AllWritten : List Write → W → W → Type 0
  AllWritten [] w w' = w ≡ w'
  AllWritten ((file, pieces) ∷ ws) w w' =
      ((write_file (get_controller_path k c file) pieces w).0 ≡ true)
      × AllWritten ws (write_file (get_controller_path k c file) pieces w).1 w'

  -- When the part of the constructor that sets the limits returns, it has put the texts of exactly
  -- the limits that the options give into streams to their files, in the order memory.max,
  -- memory.high, pids.max, cpu.max, each with its number, and nothing else; and `good()` was true
  -- of each stream when its text had been put into it, which says nothing of the flush that
  -- follows.
  pub set_limits_writes :
      (o : Builder) (w w' : W) → set_limits k c o w ≡ (done tt, w') → AllWritten (planned o) w w'
  unfolding set_limits AllWritten
  set_limits_writes o w w' e = ground arith
