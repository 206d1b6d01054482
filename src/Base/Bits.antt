-- ===== src/Base/Bits.antt =====
-- Laws of `bit_and`, `bit_or` and `bit_xor` at variables: how they act on a number that is cut
-- into a high and a low field, and how large the results are.
mod Digits
pub use Digits.{bit_and_step, bit_or_step, bit_xor_step}
use Prim.Native.Nat.{
  ℕ, zero, suc, ◌+◌, ◌-◌, ◌*◌, ◌/◌, ◌%◌, ◌^◌, ◌≤◌, ◌<◌, min, max, differ, bit_and, bit_or, bit_xor,
  bit_or-bitwise,
}
use mathlib.Core.Path.{◌≡◌, refl, ap}
use native.Mathlib.Nat.{pow-suc, one-le-pow, add-zero, mul-one}
use native.Mathlib.Omega.{arith}

mul-pow-suc : (q k : ℕ) → q * 2 ^ suc k ≡ 2 * (q * 2 ^ k)
mul-pow-suc q k = omega (arith, ap (λ (t : ℕ). q * t) (pow-suc 2 k))

-- An operation `g` that acts on each binary digit by `f`.
module _ (g f : ℕ → ℕ → ℕ) (g_zero : g 0 0 ≡ 0)
    (g_step : (a b : ℕ) → g a b ≡ g (a / 2) (b / 2) * 2 + f (a % 2) (b % 2)) where
  digitwise-fields :
      (k q r s t : ℕ)
      → r < 2 ^ k
      → t < 2 ^ k
      → g (q * 2 ^ k + r) (s * 2 ^ k + t) ≡ g q s * 2 ^ k + g r t
  digitwise-fields zero q zero s zero hr ht =
      rw (g_zero, add-zero (q * 1), add-zero (s * 1), mul-one q, mul-one s) (omega arith)
  digitwise-fields zero q (suc r) s t hr ht = absurd (omega arith)
  digitwise-fields zero q zero s (suc t) hr ht = absurd (omega arith)
  digitwise-fields (suc k) q r s t hr ht = ground (
    arith,
    pow-suc 2 k,
    mul-pow-suc q k,
    mul-pow-suc s k,
    mul-pow-suc (g q s) k,
    g_step (q * 2 ^ suc k + r) (s * 2 ^ suc k + t),
    g_step r t,
    digitwise-fields k q (r / 2) s (t / 2) (omega (arith, pow-suc 2 k))
        (omega (arith, pow-suc 2 k)),
  )

  -- No digit appears above those of the operands.
  digitwise-lt :
      ((x y : ℕ) → x < 2 → y < 2 → f x y < 2) → (k a b : ℕ) → a < 2 ^ k → b < 2 ^ k → g a b < 2 ^ k
  digitwise-lt small zero zero zero ha hb = rw g_zero (omega arith)
  digitwise-lt small zero (suc a) b ha hb = absurd (omega arith)
  digitwise-lt small zero zero (suc b) ha hb = absurd (omega arith)
  digitwise-lt small (suc k) a b ha hb = omega (
    arith,
    pow-suc 2 k,
    g_step a b,
    small (a % 2) (b % 2),
    digitwise-lt small k (a / 2) (b / 2) (omega (arith, pow-suc 2 k)) (omega (arith, pow-suc 2 k)),
  )

pub bit_and-fields :
    (k q r s t : ℕ)
    → r < 2 ^ k
    → t < 2 ^ k
    → bit_and (q * 2 ^ k + r) (s * 2 ^ k + t) ≡ bit_and q s * 2 ^ k + bit_and r t
bit_and-fields = digitwise-fields bit_and min refl bit_and_step

pub bit_or-fields :
    (k q r s t : ℕ)
    → r < 2 ^ k
    → t < 2 ^ k
    → bit_or (q * 2 ^ k + r) (s * 2 ^ k + t) ≡ bit_or q s * 2 ^ k + bit_or r t
bit_or-fields = digitwise-fields bit_or max refl bit_or_step

pub bit_and-lt : (k a b : ℕ) → a < 2 ^ k → b < 2 ^ k → bit_and a b < 2 ^ k
bit_and-lt = digitwise-lt bit_and min refl bit_and_step (λ x y hx hy. omega arith)

pub bit_or-lt : (k a b : ℕ) → a < 2 ^ k → b < 2 ^ k → bit_or a b < 2 ^ k
bit_or-lt = digitwise-lt bit_or max refl bit_or_step (λ x y hx hy. omega arith)

differ-lt_two : (x y : ℕ) → x < 2 → y < 2 → differ x y < 2
differ-lt_two zero y hx hy = hy
differ-lt_two (suc x) zero hx hy = hx
differ-lt_two (suc zero) (suc y) hx hy = omega arith
differ-lt_two (suc (suc x)) (suc y) hx hy = absurd (omega arith)

pub bit_xor-lt : (k a b : ℕ) → a < 2 ^ k → b < 2 ^ k → bit_xor a b < 2 ^ k
bit_xor-lt = digitwise-lt bit_xor differ refl bit_xor_step differ-lt_two

-- The operands' size is enough of a bound for the recursions on it below.
lt-two_pow : (n : ℕ) → n < 2 ^ n
lt-two_pow zero = omega arith
lt-two_pow (suc n) = omega (arith, pow-suc 2 n, lt-two_pow n)

and-zero_below : (k a : ℕ) → a < 2 ^ k → bit_and a 0 ≡ 0
and-zero_below zero zero h = refl
and-zero_below zero (suc a) h = absurd (omega arith)
and-zero_below (suc k) a h =
    omega
      (arith, bit_and_step a 0, pow-suc 2 k, and-zero_below k (a / 2) (omega (arith, pow-suc 2 k)))

pub bit_and-zero : (a : ℕ) → bit_and a 0 ≡ 0
bit_and-zero a = and-zero_below a a (lt-two_pow a)

or-zero_below : (k a : ℕ) → a < 2 ^ k → bit_or a 0 ≡ a
or-zero_below zero zero h = refl
or-zero_below zero (suc a) h = absurd (omega arith)
or-zero_below (suc k) a h =
    omega
      (arith, bit_or_step a 0, pow-suc 2 k, or-zero_below k (a / 2) (omega (arith, pow-suc 2 k)))

pub bit_or-zero : (a : ℕ) → bit_or a 0 ≡ a
bit_or-zero a = or-zero_below a a (lt-two_pow a)

pub zero-bit_or : (a : ℕ) → bit_or 0 a ≡ a
zero-bit_or a = bit_or-bitwise 0 a

-- A mask of ones keeps a number that it covers.
pub bit_and-ones : (k a : ℕ) → a < 2 ^ k → bit_and a (2 ^ k - 1) ≡ a
bit_and-ones zero zero h = refl
bit_and-ones zero (suc a) h = absurd (omega arith)
bit_and-ones (suc k) a h = ground (
  arith,
  pow-suc 2 k,
  one-le-pow k 2,
  bit_and_step a (2 ^ suc k - 1),
  bit_and-ones k (a / 2) (omega (arith, pow-suc 2 k)),
)

-- Two fields that do not overlap are joined by `|`.
pub bit_or_disjoint : (k q r : ℕ) → r < 2 ^ k → bit_or (q * 2 ^ k) r ≡ q * 2 ^ k + r
bit_or_disjoint k q r h = ground (
  arith,
  one-le-pow k 2,
  bit_or-fields k q 0 0 r,
  add-zero (q * 2 ^ k),
  bit_or-zero q,
  zero-bit_or r,
)

pub bit_or_disjoint' : (k q r : ℕ) → r < 2 ^ k → bit_or r (q * 2 ^ k) ≡ q * 2 ^ k + r
bit_or_disjoint' k q r h = ground (
  arith,
  one-le-pow k 2,
  bit_or-fields k 0 r q 0,
  add-zero (q * 2 ^ k),
  zero-bit_or q,
  bit_or-zero r,
)

-- A mask of `j` ones above `k` zeros clears the low field.
pub bit_and_high :
    (j k a : ℕ) → a / 2 ^ k < 2 ^ j → bit_and a ((2 ^ j - 1) * 2 ^ k) ≡ a / 2 ^ k * 2 ^ k
bit_and_high j k a h = ground (
  arith,
  one-le-pow k 2,
  bit_and-fields k (a / 2 ^ k) (a % 2 ^ k) (2 ^ j - 1) 0,
  add-zero ((2 ^ j - 1) * 2 ^ k),
  bit_and-ones j (a / 2 ^ k) h,
  bit_and-zero (a % 2 ^ k),
)

-- A mask of ones leaves the low field.
pub bit_and_low : (k a : ℕ) → bit_and a (2 ^ k - 1) ≡ a % 2 ^ k
bit_and_low k a = ground (
  arith,
  one-le-pow k 2,
  bit_and-fields k (a / 2 ^ k) (a % 2 ^ k) 0 (2 ^ k - 1),
  bit_and-zero (a / 2 ^ k),
  bit_and-ones k (a % 2 ^ k),
)
