-- ===== src/Benchmark/Operations.antt =====
-- `do_alu` of riscv32-sim/benchmark/alu.cpp, and the specialisations of `alu_function` of
-- riscv32-sim/benchmark/alu_static_variadic.hpp, one clause each.
use riscv32_sim.Base.{
  ℕ, ◌+◌, ◌-◌, ◌*◌, ◌/◌, ◌%◌, ◌^◌, bit_and, bit_or, bit_xor, Result, ok, err, runtime_error, ◌>>=◌,
  ltb, ◌==◌, if◌then◌else◌,
}
use riscv32_sim.Base.Int.{ℤ, pos, negsuc, ◌*ℤ◌, eqb_ℤ, ltb_ℤ, div_trunc, rem_trunc, shift_right}
use riscv32_sim.Base.Word.{u32, to_i32, to_u32}
use riscv32_sim.Common.{Alu, Externals}
use riscv32_sim.Iss.Alu.{shifted, of_bool, is_overflow}
use riscv32_sim.Iss.Arith.{narrow, mulhu, mulh, mulhsu}

-- The quotient and the remainder, whose zero divisor is tested on the signed word.
abbrev pub quotient : ℤ → ℤ → ℤ
quotient dividend divisor =
    if eqb_ℤ divisor (pos 0)
    then negsuc 0
    else if is_overflow dividend divisor
    then dividend
    else div_trunc dividend divisor

abbrev pub remainder : ℤ → ℤ → ℤ
remainder dividend divisor =
    if eqb_ℤ divisor (pos 0)
    then dividend
    else if is_overflow dividend divisor
    then pos 0
    else rem_trunc dividend divisor

module _ ⦃x : Externals⦄ where
  unfoldable pub do_alu_dynamic : Alu → ℕ → ℕ → Result ℕ
  do_alu_dynamic Alu.or a b = ok (bit_or a b)
  do_alu_dynamic Alu.and a b = ok (bit_and a b)
  do_alu_dynamic Alu.xor a b = ok (bit_xor a b)
  do_alu_dynamic Alu.add a b = ok (u32 (a + b))
  do_alu_dynamic Alu.auipc a b = ok (u32 (a + b))
  do_alu_dynamic Alu.jal a b = ok (u32 (a + b))
  do_alu_dynamic Alu.sub a b = ok (u32 (a + 2 ^ 32 - b))
  do_alu_dynamic Alu.sll a b = shifted b (u32 (a * 2 ^ b))
  do_alu_dynamic Alu.srl a b = shifted b (a / 2 ^ b)
  do_alu_dynamic Alu.sra a b = shifted b (to_u32 (shift_right (to_i32 a) b))
  do_alu_dynamic Alu.slt a b = ok (of_bool (ltb_ℤ (to_i32 a) (to_i32 b)))
  do_alu_dynamic Alu.sltu a b = ok (of_bool (ltb a b))
  do_alu_dynamic Alu.jalr a b = ok (bit_and (u32 (a + b)) x.lsb_zero)
  do_alu_dynamic Alu.mulh a b = mulh (to_i32 a) (to_i32 b) >>= λ z. ok (to_u32 z)
  do_alu_dynamic Alu.mulhsu a b = mulhsu (to_i32 a) b >>= λ z. ok (to_u32 z)
  do_alu_dynamic Alu.mulhu a b = ok (mulhu a b)
  do_alu_dynamic Alu.mul a b = narrow x.overflow (to_i32 a *ℤ to_i32 b) >>= λ z. ok (to_u32 z)
  do_alu_dynamic Alu.divu a b = ok (if b == 0 then 2 ^ 32 - 1 else a / b)
  do_alu_dynamic Alu.remu a b = ok (if b == 0 then a else a % b)
  do_alu_dynamic Alu.div a b = ok (to_u32 (quotient (to_i32 a) (to_i32 b)))
  do_alu_dynamic Alu.rem a b = ok (to_u32 (remainder (to_i32 a) (to_i32 b)))
  do_alu_dynamic (Alu.unnamed n) a b = err runtime_error
