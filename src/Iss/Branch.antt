-- ===== src/Iss/Branch.antt =====
-- `should_branch` (riscv32-sim/src/iss/model.cpp).
use riscv32_sim.Base.{
  ℕ, ◌≤◌, ◌<◌, ◌≡◌, refl, ◌≢◌, ◌↔◌, arith, Bool, true, not, Result, ok, err,
  unexpected_switch_case_value, ltb, leb, ◌==◌,
}
use riscv32_sim.Base.Int.{ltb_ℤ, ◌≤ℤ◌, ◌<ℤ◌}
use riscv32_sim.Base.Word.{to_i32}
use riscv32_sim.Common.{BranchOp}

unfoldable pub should_branch : ℕ → ℕ → BranchOp → Result Bool
should_branch a b BranchOp.beq = ok (a == b)
should_branch a b BranchOp.bne = ok (not (a == b))
should_branch a b BranchOp.blt = ok (ltb_ℤ (to_i32 a) (to_i32 b))
should_branch a b BranchOp.bltu = ok (ltb a b)
should_branch a b BranchOp.bge = ok (not (ltb_ℤ (to_i32 a) (to_i32 b)))
should_branch a b BranchOp.bgeu = ok (leb b a)
should_branch a b (BranchOp.unnamed n) = err unexpected_switch_case_value

-- When the manual has a branch taken.
abbrev pub Taken : BranchOp → ℕ → ℕ → Type 0
Taken BranchOp.beq a b = a ≡ b
Taken BranchOp.bne a b = a ≢ b
Taken BranchOp.blt a b = to_i32 a <ℤ to_i32 b
Taken BranchOp.bge a b = to_i32 b ≤ℤ to_i32 a
Taken BranchOp.bltu a b = a < b
Taken BranchOp.bgeu a b = b ≤ a
Taken (BranchOp.unnamed n) a b = ⊥

-- For every enumerator `should_branch` returns, and it returns true exactly if the manual has the
-- branch taken.
pub should_branch-Taken :
    (op : BranchOp) (a b : ℕ)
    → ((n : ℕ) → op ≢ BranchOp.unnamed n)
    → (t : Bool) × (should_branch a b op ≡ ok t) × ((t ≡ true) ↔ Taken op a b)
unfolding should_branch
should_branch-Taken BranchOp.beq a b h = (a == b, refl, ground arith)
should_branch-Taken BranchOp.bne a b h = (not (a == b), refl, ground arith)
should_branch-Taken BranchOp.blt a b h = (ltb_ℤ (to_i32 a) (to_i32 b), refl, ground arith)
should_branch-Taken BranchOp.bge a b h = (not (ltb_ℤ (to_i32 a) (to_i32 b)), refl, ground arith)
should_branch-Taken BranchOp.bltu a b h = (ltb a b, refl, ground arith)
should_branch-Taken BranchOp.bgeu a b h = (leb b a, refl, ground arith)
should_branch-Taken (BranchOp.unnamed n) a b h = absurd (h n refl)
