-- ===== src/Iss/Alu.antt =====
-- The arithmetic of the simulator: `do_alu` (riscv32-sim/src/iss/model.cpp). A shift by 32 or more
-- and, unless the compiler wraps, an overflow of `int32_t` are undefined behaviour.
pub mod Spec
pub mod Laws
use riscv32_sim.Base.{
  ℕ, ◌+◌, ◌-◌, ◌*◌, ◌/◌, ◌%◌, ◌^◌, bit_and, bit_or, bit_xor, Bool, ◌&&◌, Result, ok, err,
  undefined_behaviour, unexpected_switch_case_value, ◌>>=◌, ltb, ◌==◌, if◌then◌else◌,
}
use riscv32_sim.Base.Int.{ℤ, pos, negsuc, ◌*ℤ◌, eqb_ℤ, ltb_ℤ, div_trunc, rem_trunc, shift_right}
use riscv32_sim.Base.Word.{u32, to_i32, to_u32}
use riscv32_sim.Common.{Alu, Externals}
use riscv32_sim.Iss.Arith.{narrow, mulhu, mulh, mulhsu}

-- A shift of a 32-bit operand, by `k`.
abbrev pub shifted : ℕ → ℕ → Result ℕ
shifted k w = if ltb k 32 then ok w else err undefined_behaviour

abbrev pub of_bool : Bool → ℕ
of_bool b = if b then 1 else 0

abbrev pub is_overflow : ℤ → ℤ → Bool
is_overflow dividend divisor = eqb_ℤ dividend (negsuc (2 ^ 31 - 1)) && eqb_ℤ divisor (negsuc 0)

unfoldable pub div : ℤ → ℤ → ℤ
div dividend divisor =
    if eqb_ℤ divisor (pos 0)
    then negsuc 0
    else if is_overflow dividend divisor
    then dividend
    else div_trunc dividend divisor

unfoldable pub rem : ℤ → ℤ → ℤ
rem dividend divisor =
    if eqb_ℤ divisor (pos 0)
    then dividend
    else if is_overflow dividend divisor
    then pos 0
    else rem_trunc dividend divisor

module _ ⦃x : Externals⦄ where
  unfoldable pub do_alu : Alu → ℕ → ℕ → Result ℕ
  unfolding div rem
  do_alu Alu.or a b = ok (bit_or a b)
  do_alu Alu.and a b = ok (bit_and a b)
  do_alu Alu.xor a b = ok (bit_xor a b)
  do_alu Alu.add a b = ok (u32 (a + b))
  do_alu Alu.auipc a b = ok (u32 (a + b))
  do_alu Alu.jal a b = ok (u32 (a + b))
  do_alu Alu.sub a b = ok (u32 (a + 2 ^ 32 - b))
  do_alu Alu.sll a b = shifted b (u32 (a * 2 ^ b))
  do_alu Alu.srl a b = shifted b (a / 2 ^ b)
  do_alu Alu.sra a b = shifted b (to_u32 (shift_right (to_i32 a) b))
  do_alu Alu.slt a b = ok (of_bool (ltb_ℤ (to_i32 a) (to_i32 b)))
  do_alu Alu.sltu a b = ok (of_bool (ltb a b))
  do_alu Alu.jalr a b = ok (bit_and (u32 (a + b)) x.lsb_zero)
  do_alu Alu.mulh a b = mulh (to_i32 a) (to_i32 b) >>= λ z. ok (to_u32 z)
  do_alu Alu.mulhsu a b = mulhsu (to_i32 a) b >>= λ z. ok (to_u32 z)
  do_alu Alu.mulhu a b = ok (mulhu a b)
  do_alu Alu.mul a b = narrow x.overflow (to_i32 a *ℤ to_i32 b) >>= λ z. ok (to_u32 z)
  do_alu Alu.divu a b = ok (if b == 0 then 2 ^ 32 - 1 else a / b)
  do_alu Alu.remu a b = ok (if b == 0 then a else a % b)
  do_alu Alu.div a b = ok (to_u32 (div (to_i32 a) (to_i32 b)))
  do_alu Alu.rem a b = ok (to_u32 (rem (to_i32 a) (to_i32 b)))
  do_alu (Alu.unnamed n) a b = err unexpected_switch_case_value
