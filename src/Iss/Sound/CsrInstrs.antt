-- ===== src/Iss/Sound/CsrInstrs.antt =====
-- The instructions on control and status registers, and the return from a trap, return and keep
-- the invariant.
use riscv32_sim.Base.{ℕ, ◌^◌, ◌<◌, arith, Bool-cases, inl, inr, Returns}
use riscv32_sim.Base.Bits.{bit_and-lt, bit_or-lt}
use riscv32_sim.Base.Bitset.{bit}
use riscv32_sim.Iss.Sound.Status.{mstatus_left-lt}
use riscv32_sim.Iss.Trap.Return.{mstatus_left, returned, handle_mret-returned}
use riscv32_sim.Common.{Externals, IsDocumented, SysOp, Target}
use riscv32_sim.Iss.CsrInstr.{
  reads_csr, writes_register, writes_immediate, logical_not, register_value, immediate_value,
  csr_immediate, csr_register, csr,
}
use riscv32_sim.Iss.Sound.{Matches, IsSound, IsStaged}
use riscv32_sim.Iss.Sound.Handlers.{write_gpr-IsStaged}
use riscv32_sim.Iss.Sound.Traps.{trap-IsAfterTrap}
use riscv32_sim.Iss.Sound.Writes.{
  csr_written-IsSound, csr_written-IsStaged, mode-IsSound, set_pc-IsStaged,
}
use riscv32_sim.Iss.State.{Model}
use riscv32_sim.Iss.State.Updates.{csr_written, write_csr-csr_written, read-gpr, read-csr}
use riscv32_sim.Iss.Trap.{trap, handle_mret, privilege_of}
use riscv32_sim.TrapCause.{exp_inst_illegal}
use riscv32_sim.Zicsr.Mode.{set_mode, can_read, can_write}

logical_not-lt : (i : ℕ) → logical_not i < 2 ^ 32
logical_not-lt i = ground arith

register_value-lt :
    (sys : SysOp) (i tmp : ℕ) → i < 2 ^ 32 → tmp < 2 ^ 32 → register_value sys i tmp < 2 ^ 32
register_value-lt SysOp.csrrs i tmp hi ht = bit_or-lt 32 i tmp hi ht
register_value-lt SysOp.csrrc i tmp hi ht = bit_and-lt 32 tmp (logical_not i) ht (logical_not-lt i)
register_value-lt _ i tmp hi ht = hi

immediate_value-lt :
    (sys : SysOp) (i tmp : ℕ) → i < 2 ^ 32 → tmp < 2 ^ 32 → immediate_value sys i tmp < 2 ^ 32
immediate_value-lt SysOp.csrrsi i tmp hi ht = bit_or-lt 32 i tmp hi ht
immediate_value-lt SysOp.csrrci i tmp hi ht =
    bit_and-lt 32 (logical_not i) tmp (logical_not-lt i) ht
immediate_value-lt _ i tmp hi ht = hi

module _ ⦃x : Externals⦄ (d : IsDocumented x) where
  illegal-IsStaged : (m : Model) → IsStaged m → Returns IsStaged (trap m exp_inst_illegal)
  illegal-IsStaged m s =
      let t = trap-IsAfterTrap d m exp_inst_illegal (omega arith) s in
      record { value = t.value; returns = t.returns; holds = t.holds.staged }

  csr_immediate-IsStaged :
      (m : Model) (sys : SysOp) (tmp : ℕ)
      → m.cur_state.dec.imm < 4096
      → tmp < 2 ^ 32
      → IsStaged m
      → Returns IsStaged (csr_immediate m sys tmp)
  unfolding csr_immediate
  csr_immediate-IsStaged m sys tmp hi ht s =
      let dec = m.cur_state.dec in
      let v = immediate_value sys dec.rs1 tmp in
      let hv = immediate_value-lt sys dec.rs1 tmp (omega (arith, s.op.rs1_fits)) ht in
      elim (Bool-cases (writes_immediate sys)) [
        | inl e ↦ elim (Bool-cases (can_write m.mode dec.imm)) [
          | inl p ↦
              rw (e, p, write_csr-csr_written m dec.imm v hi)
                (write_gpr-IsStaged d (csr_written m dec.imm v)
                  (csr_written-IsStaged m dec.imm v hv s) tmp ht)
          | inr p ↦ rw (e, p) (illegal-IsStaged m s)
        ]
        | inr e ↦ rw e (write_gpr-IsStaged d m s tmp ht)
      ]

  csr_register-IsStaged :
      (m : Model) (sys : SysOp) (tmp : ℕ)
      → m.cur_state.dec.imm < 4096
      → tmp < 2 ^ 32
      → IsStaged m
      → Returns IsStaged (csr_register m sys tmp)
  unfolding csr_register
  csr_register-IsStaged m sys tmp hi ht s =
      let dec = m.cur_state.dec in
      let i = m.regf dec.rs1 in
      let v = register_value sys i tmp in
      let hv = register_value-lt sys i tmp (s.sound.gpr_fits dec.rs1) ht in
      elim (Bool-cases (writes_register sys dec.rs1)) [
        | inl e ↦ elim (Bool-cases (can_read m.mode dec.rs1)) [
          | inl p ↦ elim (Bool-cases (can_write m.mode dec.imm)) [
            | inl q ↦
                rw (e, p, read-gpr m dec.rs1 s.op.rs1_fits, q, write_csr-csr_written m dec.imm v hi)
                  (csr_immediate-IsStaged (csr_written m dec.imm v) sys tmp hi ht
                    (csr_written-IsStaged m dec.imm v hv s))
            | inr q ↦ rw (e, p, read-gpr m dec.rs1 s.op.rs1_fits, q) (illegal-IsStaged m s)
          ]
          | inr p ↦ rw (e, p) (illegal-IsStaged m s)
        ]
        | inr e ↦ rw e (csr_immediate-IsStaged m sys tmp hi ht s)
      ]

  pub csr-IsStaged :
      (m : Model) → Matches Target.csr m.cur_state.dec → IsStaged m → Returns IsStaged (csr m)
  unfolding csr
  csr-IsStaged m (sys, e, hi) s =
      let dec = m.cur_state.dec in
      simp e (elim (Bool-cases (reads_csr sys dec.rd)) [
        | inl r ↦ elim (Bool-cases (can_read m.mode dec.imm)) [
          | inl p ↦
              rw (r, p, read-csr m dec.imm hi)
                (csr_register-IsStaged m sys (m.csrf dec.imm) hi (s.sound.csr_fits dec.imm) s)
          | inr p ↦ rw (r, p) (illegal-IsStaged m s)
        ]
        | inr r ↦ rw r (csr_register-IsStaged m sys 0 hi (omega arith) s)
      ])

  pub handle_mret-IsStaged : (m : Model) → IsStaged m → Returns IsStaged (handle_mret m)
  handle_mret-IsStaged m s =
      let mstat = m.csrf 0x300 in
      let m₁ = csr_written m 0x300 (mstatus_left mstat) in
      let pp = privilege_of (bit mstat 12) (bit mstat 11) in
      let s₁ : IsSound (record m₁ { mode = set_mode pp }) =
        mode-IsSound m₁ pp (
          csr_written-IsSound m 0x300 _ (mstatus_left-lt mstat (s.sound.csr_fits 0x300)) s.sound) in
      record {
        value = returned m;
        returns = handle_mret-returned m;
        holds =
            set_pc-IsStaged d (record m₁ { mode = set_mode pp }) (m.csrf 0x341)
              (s.sound.csr_fits 0x341) s₁ s.op;
      }
