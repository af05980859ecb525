-- ===== src/Common/Bits/Step.antt =====
-- One equation for the lowest digit of each bitwise operation, with the fuel of its definition
-- dropped.
use Prim.Native.Nat.{
  ℕ, zero, suc, ◌+◌, ◌-◌, ◌*◌, ◌/◌, ◌%◌, ◌≤◌, min, max, differ, digits, bitwise, bit_and, bit_or,
  bit_xor, bit_and-bitwise, bit_or-bitwise, bit_xor-bitwise,
}
use mathlib.Core.Path.{◌≡◌, refl, ap, ◌∙◌}
use native.Mathlib.Omega.{arith}

module _ (rest : ℕ → ℕ) (op : ℕ → ℕ → ℕ) where
  -- Where the fuel covers the first operand, one unit more of it changes nothing.
  one_more : (fuel a b : ℕ) → a ≤ fuel → digits rest op (suc fuel) a b ≡ digits rest op fuel a b
  one_more zero zero b h = refl
  one_more zero (suc a) b h = absurd (omega arith)
  one_more (suc fuel) zero b h = refl
  one_more (suc fuel) (suc a) b h = rw (one_more fuel (suc a / 2) (b / 2) (omega arith)) refl

  more : (k a b : ℕ) → digits rest op (k + a) a b ≡ digits rest op a a b
  more zero a b = let none : 0 + a ≡ a = omega arith in ap (λ fuel. digits rest op fuel a b) none
  more (suc k) a b =
      let last : suc k + a ≡ suc (k + a) = omega arith in
      ap (λ fuel. digits rest op fuel a b) last ∙ one_more (k + a) a b (omega arith) ∙ more k a b

  -- The digits above the lowest, with the fuel that is left for them.
  upper : (a b : ℕ) → digits rest op a (suc a / 2) b ≡ digits rest op (suc a / 2) (suc a / 2) b
  upper a b =
      let gap : a ≡ (a - suc a / 2) + suc a / 2 = omega arith in
      ap (λ fuel. digits rest op fuel (suc a / 2) b) gap ∙ more (a - suc a / 2) (suc a / 2) b

  -- What the three operations do to the lowest digit of a number that is not 0.
  lowest :
      (n b : ℕ)
      → bitwise rest op (suc n) b ≡ op (suc n % 2) (b % 2) + 2 * bitwise rest op (suc n / 2) (b / 2)
  lowest n b = omega (arith, upper n (b / 2))

pub bit_or_step : (a b : ℕ) → bit_or a b ≡ max (a % 2) (b % 2) + 2 * bit_or (a / 2) (b / 2)
bit_or_step zero b = omega (arith, bit_or-bitwise zero b, bit_or-bitwise zero (b / 2))
bit_or_step (suc n) b =
    omega
      (arith, bit_or-bitwise (suc n) b, bit_or-bitwise (suc n / 2) (b / 2), lowest (λ y. y) max n b)

pub bit_and_step : (x y : ℕ) → bit_and x y ≡ min (x % 2) (y % 2) + 2 * bit_and (x / 2) (y / 2)
bit_and_step zero y = omega (arith, bit_and-bitwise zero y, bit_and-bitwise zero (y / 2))
bit_and_step (suc n) y =
    omega (
      arith,
      bit_and-bitwise (suc n) y,
      bit_and-bitwise (suc n / 2) (y / 2),
      lowest (λ r. 0) min n y,
    )

differ_digits : (x y : ℕ) → x ≤ 1 → y ≤ 1 → differ x y ≡ (x + y) % 2
differ_digits zero y p q = omega arith
differ_digits (suc x) zero p q = omega arith
differ_digits (suc zero) (suc zero) p q = refl
differ_digits (suc zero) (suc (suc y)) p q = absurd (omega arith)
differ_digits (suc (suc x)) (suc y) p q = absurd (omega arith)

pub bit_xor_step : (a b : ℕ) → bit_xor a b ≡ bit_xor (a / 2) (b / 2) * 2 + (a + b) % 2
bit_xor_step zero b = simp bit_xor-bitwise (omega arith)
bit_xor_step (suc a) b = simp bit_xor-bitwise (
    omega (
      arith,
      lowest (λ y. y) differ a b,
      differ_digits (suc a % 2) (b % 2) (omega arith) (omega arith),
    ))
