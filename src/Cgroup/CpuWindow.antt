-- ===== src/Cgroup/CpuWindow.antt =====
-- The window of a CPU limit, which the Builder keeps in unsigned words (sex/cgroup_controller.hpp,
-- sex/cgroup_controller.cpp).
use sex.Common.{
  ◌^◌, ◌<◌, zero, suc, not, ltb, false, if◌then◌else◌, [], ◌∷◌, ◌++◌, ◌≡◌, ap, refl, arith, subst,
}
use sex.Common.Int.{ℤ, pos, negsuc, minus_one, ◌==ℤ◌}
use sex.Common.Bits.{bit_not}
use sex.ExecuteArgs.{to_u64}
use sex.Runtime.{done}
use sex.Cgroup.{Builder, CgroupCalls, CgroupController, with_cpu_window_limit}
use sex.Cgroup.Control.{set_limits, to_i64, has_limit}
use sex.Cgroup.Life.{planned, planned_numbers, cpu_write, AllWritten, set_limits_writes}

-- The number fits in 64 bits with a sign.
abbrev pub IsInt64 : ℤ → Type 0
IsInt64 (pos n) = n < 2 ^ 63
IsInt64 (negsuc n) = n < 2 ^ 63

to_i64-to_u64 : (z : ℤ) → IsInt64 z → to_i64 (to_u64 z) ≡ z
to_i64-to_u64 (pos n) h = ground arith
to_i64-to_u64 (negsuc n) h =
    let big : ltb (bit_not 64 n) (2 ^ 63) ≡ false = ground arith in rw big (ap negsuc (omega arith))

has_limit-to_u64 : (z : ℤ) → IsInt64 z → has_limit (to_u64 z) ≡ not (z ==ℤ minus_one)
has_limit-to_u64 (pos n) h = ground arith
has_limit-to_u64 (negsuc zero) h = refl
has_limit-to_u64 (negsuc (suc n)) h = ground arith

cpu_planned :
    (limit window : ℤ) (o : Builder)
    → IsInt64 limit
    → IsInt64 window
    → planned (with_cpu_window_limit limit window o)
      ≡ planned_numbers o ++ (if limit ==ℤ minus_one then [] else cpu_write limit window ∷ [])
unfolding with_cpu_window_limit
cpu_planned limit window o hl hw =
    rw (has_limit-to_u64 limit hl, to_i64-to_u64 limit hl, to_i64-to_u64 window hw) (ground arith)

-- For a limit and a window that fit in 64 bits with a sign: when the constructor has set the limits
-- of options made by setCpuWindowLimit(limit, window), it has written the other limits that are
-- set and then the line of the two very numbers to cpu.max, although the Builder keeps them in
-- unsigned words; except for the limit -1, the word of NoLimit, for which cpu.max is not written.
pub cpu_limit_written :
    {W : Type 0} (k : CgroupCalls W) (c : CgroupController) (limit window : ℤ) (o : Builder)
    (w w' : W)
    → IsInt64 limit
    → IsInt64 window
    → set_limits k c (with_cpu_window_limit limit window o) w ≡ (done tt, w')
    → AllWritten k c
        (planned_numbers o ++ (if limit ==ℤ minus_one then [] else cpu_write limit window ∷ []))
        w
        w'
cpu_limit_written k c limit window o w w' hl hw e =
    subst (λ ws. AllWritten k c ws w w') (cpu_planned limit window o hl hw)
      (set_limits_writes k c (with_cpu_window_limit limit window o) w w' e)
