-- ===== src/Tests/Libraries.antt =====
-- The libraries' functions for the tests, as they are documented, with a decoder that knows four
-- instructions.
use riscv32_sim.Base.{
  ℕ, ◌<◌, ◌+◌, ◌-◌, ◌/◌, ◌%◌, ◌^◌, refl, arith, Bool, true, false, if◌then◌else◌, ◌==◌,
}
use riscv32_sim.Common.{Externals, IsDocumented, Op, OpType, Alu, Target, ProgramCounter, Overflow}
use riscv32_sim.Iss.Sound.{IsOp, IsDecoder}

-- addi rd, x0, imm
abbrev pub load_immediate : ℕ → ℕ → Op
load_immediate rd imm = record {
  imm = imm;
  opt = OpType.alu Alu.add;
  tgt = Target.alu;
  rd = rd;
  rs1 = 0;
  rs2 = 0;
  has_imm = true;
  use_pc = false;
  is_compressed = false;
}

-- addi x1, x0, 5
abbrev pub addi : Op
addi = load_immediate 1 5

abbrev pub illegal : Bool → Op
illegal compressed = record {
  imm = 0;
  opt = OpType.monostate;
  tgt = Target.illegal;
  rd = 0;
  rs1 = 0;
  rs2 = 0;
  has_imm = false;
  use_pc = false;
  is_compressed = compressed;
}

abbrev pub environment_call : Op
environment_call = record (illegal false) { tgt = Target.ecall }

-- The words that the decoder knows.
abbrev pub decoded : ℕ → Op
decoded w =
    if w == 0x00500093
    then addi
    else if w == 0x00700513
    then load_immediate 10 7
    else if w == 0x05D00893
    then load_immediate 17 93
    else if w == 0x00000073
    then environment_call
    else illegal false

instance abbrev pub libraries : Externals
libraries = record {
  offset = λ w lo hi. w / 2 ^ lo % 2 ^ (hi - lo + 1);
  sign_bit = 2 ^ 31;
  msb_zero = 2 ^ 31 - 1;
  lsb_zero = 2 ^ 32 - 2;
  base_addr = 2 ^ 32 - 4;
  pc_value = λ (p : ProgramCounter). p.pc;
  pc_set = λ (p : ProgramCounter) v. record p { pc_next = v };
  pc_update = λ (p : ProgramCounter). record p { pc = p.pc_next };
  decode = decoded;
  decode16 = λ w. illegal true;
  overflow = Overflow.undefined;
}

pub libraries-IsDocumented : IsDocumented libraries
libraries-IsDocumented = record {
  offset_lem = λ w lo hi h k. refl;
  sign_bit_lem = refl;
  msb_zero_lem = refl;
  lsb_zero_lem = refl;
  base_addr_lem = refl;
  pc_value-set = λ p v. refl;
  pc_value-update-set = λ p v. refl;
}

illegal-IsOp : (c : Bool) → IsOp (illegal c)
illegal-IsOp c = record {
  rd_fits = omega arith;
  rs1_fits = omega arith;
  rs2_fits = omega arith;
  imm_fits = omega arith;
  matches = tt;
}

load_immediate-IsOp : (rd imm : ℕ) → rd < 32 → imm < 2 ^ 32 → IsOp (load_immediate rd imm)
load_immediate-IsOp rd imm h k = record {
  rd_fits = h;
  rs1_fits = omega arith;
  rs2_fits = omega arith;
  imm_fits = k;
  matches = (Alu.add, refl, λ n. ground arith);
}

pub addi-IsOp : IsOp addi
addi-IsOp = load_immediate-IsOp 1 5 (omega arith) (omega arith)

call-IsOp : IsOp environment_call
call-IsOp = record {
  rd_fits = omega arith;
  rs1_fits = omega arith;
  rs2_fits = omega arith;
  imm_fits = omega arith;
  matches = tt;
}

either-IsOp : (b : Bool) (o o' : Op) → IsOp o → IsOp o' → IsOp (if b then o else o')
either-IsOp true o o' h h' = h
either-IsOp false o o' h h' = h'

decoded-IsOp : (w : ℕ) → IsOp (decoded w)
decoded-IsOp w = either-IsOp (w == 0x00500093) _ _ addi-IsOp (
    either-IsOp (w == 0x00700513) _ _ (load_immediate-IsOp 10 7 (omega arith) (omega arith)) (
      either-IsOp (w == 0x05D00893) _ _ (load_immediate-IsOp 17 93 (omega arith) (omega arith))
        (either-IsOp (w == 0x00000073) _ _ call-IsOp (illegal-IsOp false))))

pub libraries-IsDecoder : IsDecoder libraries
libraries-IsDecoder = record {
  decode-IsOp = λ w h. decoded-IsOp w;
  decode16-IsOp = λ w h. illegal-IsOp true;
}
