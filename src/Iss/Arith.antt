-- ===== src/Iss/Arith.antt =====
-- The high halves of products (riscv32-sim/include/iss/arith.hpp).
pub mod Products
pub mod High
use riscv32_sim.Base.{
  ℕ, ◌+◌, ◌-◌, ◌*◌, ◌/◌, ◌%◌, ◌^◌, bit_or, Bool, true, false, not, Result, ok, err,
  undefined_behaviour, ◌>>=◌, ltb, leb, ◌==◌, if◌then◌else◌,
}
use riscv32_sim.Base.Int.{ℤ, pos, negsuc, neg, ◌*ℤ◌}
use riscv32_sim.Base.Word.{u16, u32, to_i32, to_u32}
use riscv32_sim.Common.{Overflow, Externals}

-- Whether an integer is an `int32_t`.
abbrev pub fits32 : ℤ → Bool
fits32 (pos n) = ltb n (2 ^ 31)
fits32 (negsuc n) = ltb n (2 ^ 31)

abbrev pub is_neg : ℤ → Bool
is_neg (pos n) = false
is_neg (negsuc n) = true

abbrev pub differ : Bool → Bool → Bool
differ true b = not b
differ false b = b

-- The `int32_t` that a signed operation yields whose exact result is `z`.
abbrev pub overflow : Overflow → ℤ → Result ℤ
overflow Overflow.undefined z = err undefined_behaviour
overflow Overflow.wraps z = ok (to_i32 (to_u32 z))

abbrev pub narrow : Overflow → ℤ → Result ℤ
narrow o z = if fits32 z then ok z else overflow o z

unfoldable pub mulhu : ℕ → ℕ → ℕ
mulhu a b =
    let a_0 = u16 a in
    let a_1 = a / 2 ^ 16 in
    let b_0 = u16 b in
    let b_1 = b / 2 ^ 16 in
    let t = u32 (u32 (a_1 * b_0) + u32 (a_0 * b_0) / 2 ^ 16) in
    let y_1 = u16 t in
    let y_2 = u16 (t / 2 ^ 16) in
    let t' = u32 (u32 (a_0 * b_1) + y_1) in
    let t'' = u32 (u32 (u32 (a_1 * b_1) + y_2) + t' / 2 ^ 16) in
    let y_2' = u16 t'' in let y_3 = u16 (t'' / 2 ^ 16) in bit_or (u32 (y_3 * 2 ^ 16)) y_2'

-- `~res + is_zero`.
abbrev pub complement_plus : ℕ → Bool → ℕ
complement_plus res is_zero = u32 (2 ^ 32 - 1 - res + (if is_zero then 1 else 0))

module _ ⦃x : Externals⦄ where
  -- `static_cast<uint32_t>(a < 0 ? -a : a)`.
  unfoldable pub magnitude : ℤ → Result ℕ
  magnitude a =
      if is_neg a then (narrow x.overflow (neg a) >>= λ n. ok (to_u32 n)) else ok (to_u32 a)

  unfoldable pub mulh : ℤ → ℤ → Result ℤ
  mulh a b = do
    let negate = differ (is_neg a) (is_neg b)
    a' ← magnitude a
    b' ← magnitude b
    let res = mulhu a' b'
    if negate
        then (narrow x.overflow (a *ℤ b) >>= λ p. ok (to_i32 (complement_plus res (to_u32 p == 0))))
        else ok (to_i32 res)

  unfoldable pub mulhsu : ℤ → ℕ → Result ℤ
  mulhsu a b = do
    a' ← magnitude a
    let res = mulhu a' b
    ok (to_i32 (if is_neg a then complement_plus res (u32 (to_u32 a * b) == 0) else res))
