-- ===== src/Benchmark/Switch.antt =====
-- `alu_function`, `do_alu_switch` and `do_alu_static` of
-- riscv32-sim/benchmark/alu_static_variadic.hpp. The pack of operations is a list; the right fold
-- over `|` evaluates the function of the operation that is equal to `opt`, and takes 0 for others.
use riscv32_sim.Base.{
  ℕ, ◌+◌, ◌-◌, ◌*◌, ◌/◌, ◌%◌, ◌^◌, bit_and, bit_or, bit_xor, Bool, false, ◌||◌, List, [], ◌∷◌,
  Result, ok, err, runtime_error, ◌>>=◌, ltb, ◌==◌, if◌then◌else◌,
}
use riscv32_sim.Base.Int.{◌*ℤ◌, ltb_ℤ, shift_right}
use riscv32_sim.Base.Word.{u32, to_i32, to_u32}
use riscv32_sim.Benchmark.Operations.{quotient, remainder}
use riscv32_sim.Common.{Alu, Externals}
use riscv32_sim.Iss.Alu.{shifted, of_bool}
use riscv32_sim.Iss.Arith.{narrow, mulhu, mulh, mulhsu}

-- The comparison of two enumerators.
abbrev pub tag : Alu → ℕ
tag Alu.and = 0
tag Alu.or = 1
tag Alu.xor = 2
tag Alu.add = 3
tag Alu.sub = 4
tag Alu.sll = 5
tag Alu.srl = 6
tag Alu.sra = 7
tag Alu.slt = 8
tag Alu.sltu = 9
tag Alu.mul = 10
tag Alu.mulh = 11
tag Alu.mulhsu = 12
tag Alu.mulhu = 13
tag Alu.div = 14
tag Alu.divu = 15
tag Alu.rem = 16
tag Alu.remu = 17
tag Alu.auipc = 18
tag Alu.jal = 19
tag Alu.jalr = 20
tag (Alu.unnamed n) = 21 + n

abbrev pub is_alu_op : Alu → Alu → Bool
is_alu_op op opt = tag opt == tag op

module _ ⦃x : Externals⦄ where
  -- There is no specialisation for other values, so that no call of one compiles.
  unfoldable pub alu_function : Alu → ℕ → ℕ → Result ℕ
  alu_function Alu.or a b = ok (bit_or a b)
  alu_function Alu.xor a b = ok (bit_xor a b)
  alu_function Alu.add a b = ok (u32 (a + b))
  alu_function Alu.auipc a b = ok (u32 (a + b))
  alu_function Alu.jal a b = ok (u32 (a + b))
  alu_function Alu.sub a b = ok (u32 (a + 2 ^ 32 - b))
  alu_function Alu.sll a b = shifted b (u32 (a * 2 ^ b))
  alu_function Alu.srl a b = shifted b (a / 2 ^ b)
  alu_function Alu.sra a b = shifted b (to_u32 (shift_right (to_i32 a) b))
  alu_function Alu.slt a b = ok (of_bool (ltb_ℤ (to_i32 a) (to_i32 b)))
  alu_function Alu.sltu a b = ok (of_bool (ltb a b))
  alu_function Alu.jalr a b = ok (bit_and (u32 (a + b)) x.lsb_zero)
  alu_function Alu.mulh a b = mulh (to_i32 a) (to_i32 b) >>= λ z. ok (to_u32 z)
  alu_function Alu.mulhsu a b = mulhsu (to_i32 a) b >>= λ z. ok (to_u32 z)
  alu_function Alu.mulhu a b = ok (mulhu a b)
  alu_function Alu.mul a b = narrow x.overflow (to_i32 a *ℤ to_i32 b) >>= λ z. ok (to_u32 z)
  alu_function Alu.and a b = ok (bit_and a b)
  alu_function Alu.divu a b = ok (if b == 0 then 2 ^ 32 - 1 else a / b)
  alu_function Alu.remu a b = ok (if b == 0 then a else a % b)
  alu_function Alu.rem a b = ok (to_u32 (remainder (to_i32 a) (to_i32 b)))
  alu_function Alu.div a b = ok (to_u32 (quotient (to_i32 a) (to_i32 b)))
  alu_function (Alu.unnamed n) a b = err runtime_error

-- `is_alu_op<Ops>(opt) || ...`
unfoldable pub any_alu_op : List Alu → Alu → Bool
any_alu_op [] opt = false
any_alu_op (op ∷ ops) opt = is_alu_op op opt || any_alu_op ops opt

-- `(opt == Ops ? f<Ops> : 0) | ...`, where the last operand stands alone.
unfoldable pub fold_or : (Alu → Result ℕ) → Alu → List Alu → Alu → Result ℕ
fold_or f op [] opt = if is_alu_op op opt then f op else ok 0
fold_or f op (op' ∷ ops) opt =
    let rest = fold_or f op' ops opt in
    (if is_alu_op op opt then f op else ok 0) >>= λ v. rest >>= λ w. ok (bit_or v w)

module _ ⦃x : Externals⦄ where
  unfoldable pub do_alu_switch : List Alu → Alu → ℕ → ℕ → Result ℕ
  unfolding any_alu_op fold_or alu_function
  do_alu_switch [] opt opd_1 opd_2 = err runtime_error
  do_alu_switch (op ∷ ops) opt opd_1 opd_2 =
      if any_alu_op (op ∷ ops) opt
      then fold_or (λ o. alu_function o opd_1 opd_2) op ops opt
      else err runtime_error

  unfoldable pub do_alu_static : Alu → ℕ → ℕ → Result ℕ
  unfolding do_alu_switch
  do_alu_static opt opd_1 opd_2 =
      do_alu_switch
        (Alu.or ∷ Alu.and ∷ Alu.xor ∷ Alu.add ∷ Alu.auipc ∷ Alu.jal ∷ Alu.sub ∷ Alu.sll ∷ Alu.srl
          ∷ Alu.sra ∷ Alu.slt ∷ Alu.sltu ∷ Alu.jalr ∷ Alu.mulh ∷ Alu.mulhsu ∷ Alu.mulhu ∷ Alu.mul
          ∷ Alu.divu ∷ Alu.remu ∷ Alu.div ∷ Alu.rem ∷ [])
        opt opd_1 opd_2
