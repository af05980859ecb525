-- ===== src/Common/Bits.antt =====
-- The bits of a word, and what the operators `|`, `&`, `^` and `~` do to each of them.
mod Step
use Prim.Native.Nat.{ℕ, zero, suc, ◌+◌, ◌-◌, ◌*◌, ◌/◌, ◌%◌, ◌^◌, ◌≤◌, ◌<◌, bit_and, bit_or, bit_xor}
use mathlib.Core.Path.{◌≡◌, refl}
use mathlib.Core.Bool.{Bool, true, false, ◌&&◌, ◌||◌, not, xor}
use native.Mathlib.Nat.{pow-suc}
use native.Mathlib.Omega.{arith}
use sex.Common.Tests.{ltb, ◌==◌, if◌then◌else◌}
use Step.{bit_and_step, bit_or_step, bit_xor_step}

-- Bit `k` of `a`, counted from the lowest, which is bit 0.
abbrev pub test_bit : ℕ → ℕ → Bool
test_bit a zero = a % 2 == 1
test_bit a (suc k) = test_bit (a / 2) k

-- `~a` on words of `w` bits.
abbrev pub bit_not : ℕ → ℕ → ℕ
bit_not w a = 2 ^ w - 1 - a

module _ (a b : ℕ) where
  bit_or_half : bit_or a b / 2 ≡ bit_or (a / 2) (b / 2)
  bit_or_half = omega (arith, bit_or_step a b)

  bit_and_half : bit_and a b / 2 ≡ bit_and (a / 2) (b / 2)
  bit_and_half = omega (arith, bit_and_step a b)

  bit_xor_half : bit_xor a b / 2 ≡ bit_xor (a / 2) (b / 2)
  bit_xor_half = omega (arith, bit_xor_step a b)

pub test_bit-bit_or : (a b k : ℕ) → test_bit (bit_or a b) k ≡ (test_bit a k || test_bit b k)
test_bit-bit_or a b zero = ground (arith, bit_or_step a b)
test_bit-bit_or a b (suc k) = rw (bit_or_half a b) (test_bit-bit_or (a / 2) (b / 2) k)

test_bit-bit_and : (a b k : ℕ) → test_bit (bit_and a b) k ≡ (test_bit a k && test_bit b k)
test_bit-bit_and a b zero = ground (arith, bit_and_step a b)
test_bit-bit_and a b (suc k) = rw (bit_and_half a b) (test_bit-bit_and (a / 2) (b / 2) k)

pub test_bit-bit_xor : (a b k : ℕ) → test_bit (bit_xor a b) k ≡ xor (test_bit a k) (test_bit b k)
unfolding xor
test_bit-bit_xor a b zero = ground (arith, bit_xor_step a b)
test_bit-bit_xor a b (suc k) = rw (bit_xor_half a b) (test_bit-bit_xor (a / 2) (b / 2) k)

pub test_bit-zero : (k : ℕ) → test_bit 0 k ≡ false
test_bit-zero zero = refl
test_bit-zero (suc k) = test_bit-zero k

-- A word with one bit set.
pub test_bit-pow : (n k : ℕ) → test_bit (2 ^ n) k ≡ (n == k)
test_bit-pow zero zero = refl
test_bit-pow zero (suc k) = ground (arith, test_bit-zero k)
test_bit-pow (suc n) zero = ground (arith, pow-suc 2 n)
test_bit-pow (suc n) (suc k) =
    let e : 2 ^ suc n / 2 ≡ 2 ^ n = omega (arith, pow-suc 2 n) in
    rw e (ground (arith, test_bit-pow n k))

-- `~` turns each of the `w` bits round, and there are no bits above them.
test_bit-bit_not :
    (w a k : ℕ) → a < 2 ^ w → test_bit (bit_not w a) k ≡ (ltb k w && not (test_bit a k))
test_bit-bit_not zero a k h =
    let e : bit_not zero a ≡ 0 = omega arith in rw (e, test_bit-zero k) (ground arith)
test_bit-bit_not (suc w) a zero h = ground (arith, pow-suc 2 w)
test_bit-bit_not (suc w) a (suc k) h =
    let e : bit_not (suc w) a / 2 ≡ bit_not w (a / 2) = omega (arith, pow-suc 2 w) in
    rw e (ground (arith, test_bit-bit_not w (a / 2) k (omega (arith, pow-suc 2 w))))

-- `flags &= ~mask`: exactly the bits of the mask go.
pub test_bit-clear :
    (w a m k : ℕ)
    → m < 2 ^ w
    → k < w
    → test_bit (bit_and a (bit_not w m)) k ≡ (test_bit a k && not (test_bit m k))
test_bit-clear w a m k hm hk =
    rw (test_bit-bit_and a (bit_not w m) k, test_bit-bit_not w m k hm) (ground arith)

-- `flags ^ mask` for a mask of one bit turns that bit round and leaves the others.
pub test_bit-flip :
    (a bit k : ℕ)
    → test_bit (bit_xor a (2 ^ bit)) k ≡ (if bit == k then not (test_bit a k) else test_bit a k)
unfolding xor
test_bit-flip a bit k = rw (test_bit-bit_xor a (2 ^ bit) k, test_bit-pow bit k) (ground arith)
