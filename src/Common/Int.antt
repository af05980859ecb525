-- ===== src/Common/Int.antt =====
-- C++ integers without their width: sums, order, and the division that rounds towards zero.
use Prim.Native.Nat.{ℕ, suc, ◌+◌, ◌-◌, ◌*◌, ◌/◌, ◌%◌, ◌≤◌}
use mathlib.Core.Path.{◌≡◌}
use mathlib.Core.Logic.{◌≢◌}
use mathlib.Core.Bool.{Bool, true, false}
use native.Mathlib.Nat.{div-add-mod}
use native.Mathlib.Omega.{arith}
use sex.Common.Tests.{leb, ◌==◌, if◌then◌else◌}

-- `negsuc n` is -(n + 1).
pub data ℤ : Type 0 where
  pos : ℕ → ℤ
  negsuc : ℕ → ℤ

-- The -1 by which a system call reports an error, and which marks the empty descriptor.
abbrev pub minus_one : ℤ
minus_one = negsuc 0

abbrev pub pos_part : ℤ → ℕ
pos_part (pos n) = n
pos_part (negsuc n) = 0

abbrev pub neg_part : ℤ → ℕ
neg_part (pos n) = 0
neg_part (negsuc n) = suc n

abbrev sub_ℕ : ℕ → ℕ → ℤ
sub_ℕ a b = if leb b a then pos (a - b) else negsuc (b - a - 1)

infixl 65 ◌+ℤ◌
infix 50 ◌≤ℤ◌ ◌==ℤ◌
pub ◌+ℤ◌ : ℤ → ℤ → ℤ
a +ℤ b = sub_ℕ (pos_part a + pos_part b) (neg_part a + neg_part b)

abbrev ◌≤ℤ◌ : ℤ → ℤ → Type 0
a ≤ℤ b = pos_part a + neg_part b ≤ pos_part b + neg_part a

abbrev pub ◌==ℤ◌ : ℤ → ℤ → Bool
pos a ==ℤ pos b = a == b
negsuc a ==ℤ negsuc b = a == b
pos a ==ℤ negsuc b = false
negsuc a ==ℤ pos b = false

-- The product with a number.
unfoldable pub ◌*ℕ◌ : ℤ → ℕ → ℤ
a *ℕ k = sub_ℕ (pos_part a * k) (neg_part a * k)

infixl 70 ◌*ℕ◌
-- `a / k` and `a % k` for a positive `k`: both round towards zero, as in C++.
unfoldable pub quot : ℤ → ℕ → ℤ
quot (pos n) k = pos (n / k)
quot (negsuc n) k = sub_ℕ 0 (suc n / k)

unfoldable pub rem : ℤ → ℕ → ℤ
rem (pos n) k = pos (n % k)
rem (negsuc n) k = sub_ℕ 0 (suc n % k)

pub ==ℤ→eq : (a b : ℤ) → (a ==ℤ b) ≡ true → a ≡ b
==ℤ→eq (pos a) (pos b) h = ground arith
==ℤ→eq (pos a) (negsuc b) h = ground arith
==ℤ→eq (negsuc a) (pos b) h = ground arith
==ℤ→eq (negsuc a) (negsuc b) h = ground arith

pub ==ℤ_self : (a : ℤ) → (a ==ℤ a) ≡ true
==ℤ_self (pos a) = ground arith
==ℤ_self (negsuc a) = ground arith

pub ==ℤ_ne : (a b : ℤ) → a ≢ b → (a ==ℤ b) ≡ false
==ℤ_ne a b h = ground (arith, ==ℤ→eq a b)

pub ==ℤ→ne : (a b : ℤ) → (a ==ℤ b) ≡ false → a ≢ b
==ℤ→ne a b h e = cc (rw e at h, ==ℤ_self b)

-- Quotient and remainder make up the number.
pub quot-rem : (a : ℤ) (k : ℕ) → rem a k +ℤ quot a k *ℕ k ≡ a
unfolding rem quot ◌+ℤ◌ ◌*ℕ◌
quot-rem (pos n) k = ground (arith, div-add-mod n k)
quot-rem (negsuc n) k = ground (arith, div-add-mod (suc n) k)
