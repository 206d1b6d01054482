-- ===== src/Iss/Exec.antt =====
-- One instruction: `fetch`, `exec` with its handlers, `step` and `commit`
-- (riscv32-sim/src/iss/model.cpp), and the run of `main` (riscv32-sim/src/main.cpp).
use riscv32_sim.Base.{
  ℕ, zero, suc, ◌+◌, bit_and, Bool, false, not, ◌&&◌, ◌||◌, List, [], ◌∷◌, Result, ok, ◌>>=◌, ltb,
  leb, ◌==◌, if◌then◌else◌,
}
use riscv32_sim.Base.Word.{u32}
use riscv32_sim.Common.{Externals, Op, Alu, Target}
use riscv32_sim.Iss.Alu.{do_alu}
use riscv32_sim.Iss.Branch.{should_branch}
use riscv32_sim.Iss.CsrInstr.{csr}
use riscv32_sim.Iss.LoadStore.{load, store}
use riscv32_sim.Iss.State.{Model, write_gpr, get_alu, get_branch, pc_of, set_pc, update_pc}
use riscv32_sim.Iss.Trap.{trap, ecall_cause, set_pending, handle_mret}
use riscv32_sim.Memory.Router
use riscv32_sim.RegFile
use riscv32_sim.TrapCause.{exp_inst_access_fault, exp_inst_illegal, exp_breakpoint, int_timer_m}

-- `any_of` over the ranges, whose ends are included.
unfoldable pub is_address_initialized : List (ℕ × ℕ) → ℕ → Bool
is_address_initialized [] address = false
is_address_initialized ((lo, hi) ∷ ranges) address =
    leb lo address && leb address hi || is_address_initialized ranges address

unfoldable pub is_valid_pc : Model → ℕ → Bool
unfolding is_address_initialized
is_valid_pc m addr = is_address_initialized m.allowed_pcs addr

-- The length of the instruction.
abbrev pub instr_length : Op → ℕ
instr_length dec = if dec.is_compressed then 2 else 4

module _ ⦃x : Externals⦄ where
  unfoldable pub fetch : Model → Model
  fetch m =
      let w = Router.read32 m.mem (pc_of m) in
      let dec = if not (bit_and w 3 == 3) then x.decode16 w else x.decode w in
      record m { cur_state = record m.cur_state { dec = dec; instr = w } }

  unfoldable pub handle_branch : Model → Result Model
  handle_branch m = do
    let dec = m.cur_state.dec
    a ← RegFile.read m.regf dec.rs1
    b ← RegFile.read m.regf dec.rs2
    op ← get_branch dec.opt
    taken ← should_branch a b op
    ok (if taken then set_pc m (u32 (dec.imm + pc_of m)) else m)

  unfoldable pub handle_load : Model → Result Model
  unfolding load
  handle_load m = load m >>= λ v. write_gpr m m.cur_state.dec.rd v

  -- The second switch of `handle_alu`.
  unfoldable pub write_alu : Model → Alu → ℕ → Result Model
  write_alu m op res =
      let dec = m.cur_state.dec in
      let link =
        write_gpr m dec.rd (u32 (pc_of m + instr_length dec)) >>= λ m'. ok (set_pc m' res) in
      elim op [ Alu.jal ↦ link | Alu.jalr ↦ link | _ ↦ write_gpr m dec.rd res ]

  unfoldable pub handle_alu : Model → Result Model
  unfolding write_alu
  handle_alu m = do
    let dec = m.cur_state.dec
    opd_1 ← if dec.use_pc then ok (pc_of m) else RegFile.read m.regf dec.rs1
    opd_2 ← if dec.has_imm then ok dec.imm else RegFile.read m.regf dec.rs2
    op ← get_alu dec.opt
    res ← do_alu op opd_1 opd_2
    write_alu m op res

  -- The switch of `exec`.
  unfoldable pub dispatch : Target → Model → Result Model
  unfolding handle_branch handle_load handle_alu
  dispatch Target.store m = store m
  dispatch Target.alu m = handle_alu m
  dispatch Target.load m = handle_load m
  dispatch Target.branch m = handle_branch m
  dispatch Target.csr m = csr m
  dispatch Target.mret m = handle_mret m
  dispatch Target.ecall m = trap m (ecall_cause m)
  dispatch Target.illegal m = trap m exp_inst_illegal
  dispatch Target.ebreak m = trap m exp_breakpoint
  dispatch (Target.unnamed n) m = ok m

  unfoldable pub exec : Model → Result Model
  unfolding dispatch
  exec m = dispatch m.cur_state.dec.tgt m

  unfoldable pub step : Model → Result Model
  unfolding fetch is_valid_pc exec
  step m = do
    let m₁ = fetch m
    let m₂ = set_pc m₁ (u32 (pc_of m₁ + instr_length m₁.cur_state.dec))
    m₃ ← if not (is_valid_pc m₂ (pc_of m₂)) then trap m₂ exp_inst_access_fault else ok m₂
    exec m₃

  unfoldable pub interrupt_pending : Model → Result Model
  interrupt_pending m =
      let due =
        m.opts.mti_enabled
        && ltb (Router.read64 m.mem m.opts.mtimecmp) (Router.read64 m.mem m.opts.mtime) in
      let fire = set_pending m int_timer_m >>= λ m'. trap m' int_timer_m in
      if due then fire else ok m

  unfoldable pub commit : Model → Result Model
  unfolding interrupt_pending
  commit m = do
    m' ← interrupt_pending (update_pc m)
    ok (record m' { cur_state = record m'.cur_state { csr_staged = []; gpr_staged = [] } })

  -- The loop of `main`, without manual stepping, for at most `fuel` instructions.
  unfoldable pub run : ℕ → Model → Result Model
  unfolding step commit
  run zero m = ok m
  run (suc fuel) m =
      let next = step m >>= λ m₁. commit m₁ >>= λ m₂. run fuel m₂ in
      if m.is_done then ok m else next
