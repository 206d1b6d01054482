-- ===== src/Tests/Numbers.antt =====
-- The theorems on arithmetic, branches and access levels at concrete inputs.
use riscv32_sim.Base.{◌≡◌, ◌↔◌, arith, Bool, true, ok, err, undefined_behaviour, if◌then◌else◌}
use riscv32_sim.Base.Int.{pos, negsuc, ◌*ℤ◌, shift_right}
use riscv32_sim.Base.Word.{to_i32, to_u32}
use riscv32_sim.Common.{Alu, BranchOp}
use riscv32_sim.Iss.Alu.{do_alu}
use riscv32_sim.Iss.Alu.Laws.{do_alu-alu_result}
use riscv32_sim.Iss.Alu.Spec.{alu_result, is_undefined}
use riscv32_sim.Iss.Arith.{mulh}
use riscv32_sim.Iss.Arith.High.{is_undefined_mulh, mulh-high}
use riscv32_sim.Iss.Branch.{should_branch, Taken, should_branch-Taken}
use riscv32_sim.Tests.Libraries.{libraries, libraries-IsDocumented}

do_alu-alu_result_example : do_alu Alu.mulh 0xFFFFFFFE 3 ≡ (
    if is_undefined libraries.overflow Alu.mulh 0xFFFFFFFE 3
    then err undefined_behaviour
    else ok (alu_result Alu.mulh 0xFFFFFFFE 3))
do_alu-alu_result_example =
    do_alu-alu_result libraries-IsDocumented 0xFFFFFFFE 3 (omega arith) (omega arith) Alu.mulh
      (λ n. ground arith)

mulh-high_example : mulh (negsuc 1) (pos 3) ≡ (
    if is_undefined_mulh libraries.overflow (negsuc 1) (pos 3)
    then err undefined_behaviour
    else ok (to_i32 (to_u32 (shift_right (negsuc 1 *ℤ pos 3) 32))))
mulh-high_example = mulh-high (negsuc 1) (pos 3) (omega arith) (omega arith)

should_branch-Taken_example :
    (t : Bool) × (should_branch 0xFFFFFFFF 1 BranchOp.blt ≡ ok t)
    × ((t ≡ true) ↔ Taken BranchOp.blt 0xFFFFFFFF 1)
should_branch-Taken_example = should_branch-Taken BranchOp.blt 0xFFFFFFFF 1 (λ n. ground arith)
