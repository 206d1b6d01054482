-- ===== src/Base/Bits/Digits.antt =====
-- The bit operations stand for a recursion on binary digits with fuel. Here the fuel is dropped,
-- which leaves one equation for the lowest digit of each operation.
use Prim.Native.Nat.{
  ℕ, zero, suc, ◌+◌, ◌*◌, ◌/◌, ◌%◌, ◌≤◌, min, max, digits, bitwise, differ, bit_and, bit_or,
  bit_xor, bit_and-bitwise, bit_or-bitwise, bit_xor-bitwise,
}
use mathlib.Core.Path.{◌≡◌, refl}
use native.Mathlib.Omega.{arith}

module _ (low : ℕ → ℕ) (on_digit : ℕ → ℕ → ℕ) where
  enough_fuel :
      (x y k l : ℕ) → x ≤ k → x ≤ l → digits low on_digit k x y ≡ digits low on_digit l x y
  enough_fuel (suc x) y (suc k) (suc l) hk hl =
      rw (enough_fuel (suc x / 2) (y / 2) k l (omega arith) (omega arith))
  enough_fuel (suc x) y zero l hk hl = absurd (omega arith)
  enough_fuel (suc x) y (suc k) zero hk hl = absurd (omega arith)
  enough_fuel zero y zero zero hk hl = refl
  enough_fuel zero y zero (suc l) hk hl = refl
  enough_fuel zero y (suc k) zero hk hl = refl
  enough_fuel zero y (suc k) (suc l) hk hl = refl

  lowest_digit :
      (x y : ℕ)
      → bitwise low on_digit (suc x) y
        ≡ on_digit (suc x % 2) (y % 2) + bitwise low on_digit (suc x / 2) (y / 2) * 2
  lowest_digit x y =
      omega (arith, enough_fuel (suc x / 2) (y / 2) x (suc x / 2) (omega arith) (omega arith))

pub bit_xor_step : (x y : ℕ) → bit_xor x y ≡ bit_xor (x / 2) (y / 2) * 2 + differ (x % 2) (y % 2)
bit_xor_step (suc x) y = simp bit_xor-bitwise (omega (arith, lowest_digit (λ k. k) differ x y))
bit_xor_step zero y = simp bit_xor-bitwise (omega arith)

pub bit_or_step : (x y : ℕ) → bit_or x y ≡ bit_or (x / 2) (y / 2) * 2 + max (x % 2) (y % 2)
bit_or_step (suc x) y = simp bit_or-bitwise (omega (arith, lowest_digit (λ k. k) max x y))
bit_or_step zero y = simp bit_or-bitwise (omega arith)

pub bit_and_step : (x y : ℕ) → bit_and x y ≡ bit_and (x / 2) (y / 2) * 2 + min (x % 2) (y % 2)
bit_and_step (suc x) y = simp bit_and-bitwise (omega (arith, lowest_digit (λ k. 0) min x y))
bit_and_step zero y = simp bit_and-bitwise (omega arith)
