-- ===== src/Json/Operation.antt =====
-- `adl_serializer<op_type>`. The values of the enumerators are the decoder's.
pub mod Laws
use riscv32_sim.Base.{
  ℕ, ◌+◌, ◌-◌, ◌%◌, ◌^◌, ◌≤◌, ◌<◌, ◌≡◌, refl, arith, Bool, true, false, ◌⊎◌, ◌&&◌, Result, err,
  runtime_error, if◌then◌else◌, leb, ◌==◌, inl, inr, Bool-cases,
}
use riscv32_sim.Base.Word.{u8}
use riscv32_sim.Common.{OpType, Alu, LoadOp, StoreOp, BranchOp, SysOp}

-- The casts between the enumerations and `uint8_t`.
pub record Enumerators : Type 0 where
  pub alu_value : Alu → ℕ
  pub load_value : LoadOp → ℕ
  pub store_value : StoreOp → ℕ
  pub branch_value : BranchOp → ℕ
  pub sys_value : SysOp → ℕ
  pub alu_of : ℕ → Alu
  pub load_of : ℕ → LoadOp
  pub store_of : ℕ → StoreOp
  pub branch_of : ℕ → BranchOp
  pub sys_of : ℕ → SysOp

unfoldable pub to_json : Enumerators → OpType → ℕ
to_json e OpType.monostate = 0
to_json e (OpType.alu a) = 50 + u8 (e.alu_value a)
to_json e (OpType.load l) = 40 + u8 (e.load_value l)
to_json e (OpType.store s) = 30 + u8 (e.store_value s)
to_json e (OpType.branch b) = 20 + u8 (e.branch_value b)
to_json e (OpType.sys s) = 1 + u8 (e.sys_value s)

-- The variables that the tests of `from_json` change.
pub record Parsing : Type 0 where
  pub x : ℕ
  pub type : OpType

unfoldable pub parse_empty : Parsing → Parsing
parse_empty p = if p.x == 0 then record p { type = OpType.monostate } else p

-- A test of the range, with the assignment to `x` that the branch makes.
unfoldable pub parse_range : ℕ → ℕ → ℕ → (ℕ → OpType) → Parsing → Parsing
parse_range lo hi base make p =
    if leb lo p.x && leb p.x hi then record { x = p.x - base; type = make (p.x - base) } else p

unfoldable pub parse : Enumerators → Parsing → Parsing
unfolding parse_empty parse_range
parse e p =
    let p₁ = parse_range 1 19 1 (λ n. OpType.sys (e.sys_of n)) (parse_empty p) in
    let p₂ = parse_range 20 29 20 (λ n. OpType.branch (e.branch_of n)) p₁ in
    let p₃ = parse_range 30 39 30 (λ n. OpType.store (e.store_of n)) p₂ in
    let p₄ = parse_range 40 49 40 (λ n. OpType.load (e.load_of n)) p₃ in
    parse_range 50 100 50 (λ n. OpType.alu (e.alu_of n)) p₄

-- What `from_json` leaves in its argument, and how it ends.
unfoldable pub from_json : Enumerators → ℕ → OpType → OpType × Result OpType
unfolding parse
from_json e j type = ((parse e (record { x = u8 j; type = type })).type, err runtime_error)
