-- ===== src/Iss/Alu/Spec.antt =====
-- The results that the RISC-V manual gives for the instructions of RV32I and RV32M, on words, and
-- the operands at which C++ leaves `do_alu` undefined.
use riscv32_sim.Base.{
  ℕ, ◌+◌, ◌-◌, ◌*◌, ◌/◌, ◌%◌, ◌^◌, bit_and, bit_or, bit_xor, Bool, false, leb, ltb, ◌==◌,
  if◌then◌else◌,
}
use riscv32_sim.Base.Int.{pos, ◌*ℤ◌, ltb_ℤ, div_trunc, rem_trunc, shift_right}
use riscv32_sim.Base.Word.{to_i32, to_u32}
use riscv32_sim.Common.{Alu, Overflow}
use riscv32_sim.Iss.Arith.High.{is_undefined_neg, is_undefined_result, is_undefined_mulh}

-- A product is the low or the high word of the exact product, and a quotient or remainder is that
-- of the exact division, so that the manual's case of overflow needs no clause here.
unfoldable pub alu_result : Alu → ℕ → ℕ → ℕ
alu_result Alu.or a b = bit_or a b
alu_result Alu.and a b = bit_and a b
alu_result Alu.xor a b = bit_xor a b
alu_result Alu.add a b = (a + b) % 2 ^ 32
alu_result Alu.auipc a b = (a + b) % 2 ^ 32
alu_result Alu.jal a b = (a + b) % 2 ^ 32
alu_result Alu.jalr a b = (a + b) % 2 ^ 32 / 2 * 2
alu_result Alu.sub a b = if leb b a then a - b else 2 ^ 32 - (b - a)
alu_result Alu.sll a b = a * 2 ^ (b % 32) % 2 ^ 32
alu_result Alu.srl a b = a / 2 ^ (b % 32)
alu_result Alu.sra a b = to_u32 (shift_right (to_i32 a) (b % 32))
alu_result Alu.slt a b = if ltb_ℤ (to_i32 a) (to_i32 b) then 1 else 0
alu_result Alu.sltu a b = if ltb a b then 1 else 0
alu_result Alu.mul a b = a * b % 2 ^ 32
alu_result Alu.mulhu a b = a * b / 2 ^ 32
alu_result Alu.mulh a b = to_u32 (shift_right (to_i32 a *ℤ to_i32 b) 32)
alu_result Alu.mulhsu a b = to_u32 (shift_right (to_i32 a *ℤ pos b) 32)
alu_result Alu.divu a b = if b == 0 then 2 ^ 32 - 1 else a / b
alu_result Alu.remu a b = if b == 0 then a else a % b
alu_result Alu.div a b = if b == 0 then 2 ^ 32 - 1 else to_u32 (div_trunc (to_i32 a) (to_i32 b))
alu_result Alu.rem a b = if b == 0 then a else to_u32 (rem_trunc (to_i32 a) (to_i32 b))
alu_result (Alu.unnamed n) a b = 0

-- The operands at which C++ leaves the result open.
unfoldable pub is_undefined : Overflow → Alu → ℕ → ℕ → Bool
is_undefined o Alu.sll a b = leb 32 b
is_undefined o Alu.srl a b = leb 32 b
is_undefined o Alu.sra a b = leb 32 b
is_undefined o Alu.mul a b = is_undefined_result o (to_i32 a *ℤ to_i32 b)
is_undefined o Alu.mulh a b = is_undefined_mulh o (to_i32 a) (to_i32 b)
is_undefined o Alu.mulhsu a b = is_undefined_neg o (to_i32 a)
is_undefined o _ a b = false
