-- ===== src/Common.antt =====
-- What the simulator takes from the libraries riscv32-sim-common and riscv32-decoder, which are
-- submodules and not part of the repository. The data types have the members that the
-- repository's own code names (riscv32-sim/include/util/format_helpers.hpp and
-- json_export_helpers.hpp); the functions and the masks are the fields of `Externals`.
use riscv32_sim.Base.{ℕ, ◌+◌, ◌-◌, ◌/◌, ◌%◌, ◌^◌, ◌≤◌, ◌<◌, ◌≡◌, Bool, List}

-- The enumerations. `unnamed` is any value of the underlying type that has no enumerator.
pub data Alu : Type 0 where
  and or xor add sub sll srl sra slt sltu : Alu
  mul mulh mulhsu mulhu div divu rem remu : Alu
  auipc jal jalr : Alu
  unnamed : ℕ → Alu

pub data LoadOp : Type 0 where
  lb lh lw lbu lhu : LoadOp
  unnamed : ℕ → LoadOp

pub data StoreOp : Type 0 where
  sb sh sw : StoreOp
  unnamed : ℕ → StoreOp

pub data BranchOp : Type 0 where
  beq bne blt bge bltu bgeu : BranchOp
  unnamed : ℕ → BranchOp

pub data SysOp : Type 0 where
  csrrw csrrs other csrrc csrrwi csrrsi csrrci : SysOp
  unnamed : ℕ → SysOp

pub data Target : Type 0 where
  load store alu branch csr mret illegal ebreak ecall : Target
  unnamed : ℕ → Target

-- The variant `op_type`.
pub data OpType : Type 0 where
  monostate : OpType
  alu : Alu → OpType
  load : LoadOp → OpType
  store : StoreOp → OpType
  branch : BranchOp → OpType
  sys : SysOp → OpType

pub record Op : Type 0 where
  pub imm : ℕ  -- uint32
  pub opt : OpType
  pub tgt : Target
  pub rd : ℕ  -- uint8
  pub rs1 : ℕ  -- uint8
  pub rs2 : ℕ  -- uint8
  pub has_imm : Bool
  pub use_pc : Bool
  pub is_compressed : Bool

pub record GprChange : Type 0 where
  pub index : ℕ  -- uint8
  pub prev : ℕ  -- uint32
  pub next : ℕ  -- uint32

pub record CsrChange : Type 0 where
  pub index : ℕ  -- uint16
  pub prev : ℕ  -- uint32
  pub next : ℕ  -- uint32

pub record ProgramCounter : Type 0 where
  pub pc : ℕ
  pub pc_next : ℕ

pub record HartState : Type 0 where
  pub pc : ProgramCounter
  pub instr : ℕ
  pub dec : Op
  pub gpr_staged : List GprChange
  pub csr_staged : List CsrChange

-- What the compiled program does where a signed operation overflows: C++ leaves it undefined,
-- and a compiler may promise (`-fwrapv`) that the result wraps.
pub data Overflow : Type 0 where
  undefined wraps : Overflow

pub record Externals : Type 0 where
  -- Bits `lo` to `hi` of a word.
  pub offset : ℕ → ℕ → ℕ → ℕ
  -- masks::sign_bit, masks::msb_zero, masks::lsb_zero and masks::tvec::base_addr.
  pub sign_bit : ℕ
  pub msb_zero : ℕ
  pub lsb_zero : ℕ
  pub base_addr : ℕ
  -- The conversion of a program counter to `uint32_t`, and its two methods.
  pub pc_value : ProgramCounter → ℕ
  pub pc_set : ProgramCounter → ℕ → ProgramCounter
  pub pc_update : ProgramCounter → ProgramCounter
  pub decode : ℕ → Op
  pub decode16 : ℕ → Op
  pub overflow : Overflow

-- What the simulator relies on: the fields of a word, the values of the masks, and a program
-- counter whose next value is staged by `set` and becomes current by `update`.
pub record IsDocumented (x : Externals) : Type 0 where
  pub offset_lem :
      (w lo hi : ℕ) → lo ≤ hi → hi < 32 → x.offset w lo hi ≡ w / 2 ^ lo % 2 ^ (hi - lo + 1)
  pub sign_bit_lem : x.sign_bit ≡ 2 ^ 31
  pub msb_zero_lem : x.msb_zero ≡ 2 ^ 31 - 1
  pub lsb_zero_lem : x.lsb_zero ≡ 2 ^ 32 - 2
  pub base_addr_lem : x.base_addr ≡ 2 ^ 32 - 4
  pub pc_value-set : (p : ProgramCounter) (v : ℕ) → x.pc_value (x.pc_set p v) ≡ x.pc_value p
  pub pc_value-update-set :
      (p : ProgramCounter) (v : ℕ) → x.pc_value (x.pc_update (x.pc_set p v)) ≡ v
