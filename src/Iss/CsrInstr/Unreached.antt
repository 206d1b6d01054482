-- ===== src/Iss/CsrInstr/Unreached.antt =====
-- An instruction on a control register that its level does not reach.
use riscv32_sim.Base.{
  ℕ, ◌<◌, ◌≡◌, refl, Bool, true, false, not, ◌==◌, ◌⊎◌, inl, inr, ap, ◌∙◌, Bool-cases,
}
use riscv32_sim.Common.{Externals, IsDocumented, OpType, SysOp}
use riscv32_sim.Iss.CsrInstr.{
  reads_csr, writes_register, writes_immediate, csr_immediate, csr_register, csr,
}
use riscv32_sim.Iss.CsrInstr.Parts.{can_read-register, skip_register}
use riscv32_sim.Iss.Sound.{IsOp}
use riscv32_sim.Iss.State.{Model}
use riscv32_sim.Iss.State.Updates.{read-gpr, read-csr}
use riscv32_sim.Iss.Trap.{trap}
use riscv32_sim.TrapCause.{exp_inst_illegal}
use riscv32_sim.Zicsr.Mode.{can_read, can_write}

-- Only csrrwi does not read.
unread_writes :
    (sys : SysOp) (rd rs1 : ℕ)
    → reads_csr sys rd ≡ false
    → (writes_register sys rs1 ≡ false) × (writes_immediate sys ≡ true)
unread_writes SysOp.csrrwi rd rs1 e = (refl, refl)
unread_writes _ rd rs1 e = cc

-- The instruction comes to a write, or to a read where it cannot read.
abbrev pub Stops : SysOp → ℕ → Bool → Type 0
Stops SysOp.csrrw rs1 r = Unit {0}
Stops SysOp.csrrs rs1 r = (r ≡ false) ⊎ (rs1 == 0 ≡ false)
Stops SysOp.csrrwi rs1 r = Unit {0}
Stops SysOp.csrrsi rs1 r = Unit {0}
Stops _ rs1 r = ⊥

module _ ⦃x : Externals⦄ (d : IsDocumented x) (m : Model) (op : IsOp m.cur_state.dec)
    (fits : m.cur_state.dec.imm < 4096)
    (closed : can_write m.mode m.cur_state.dec.imm ≡ false) where
  -- The write comes before the end.
  immediate_stops :
      (sys : SysOp) (old : ℕ)
      → writes_immediate sys ≡ true
      → csr_immediate m sys old ≡ trap m exp_inst_illegal
  unfolding csr_immediate
  immediate_stops sys old b = rw (b, closed) refl

  register_stops :
      (sys : SysOp) (old : ℕ)
      → writes_register sys m.cur_state.dec.rs1 ≡ true
      → csr_register m sys old ≡ trap m exp_inst_illegal
  unfolding csr_register
  register_stops sys old a =
      rw (a, can_read-register d m op fits, read-gpr m m.cur_state.dec.rs1 op.rs1_fits, closed) refl

  writes_in_time :
      (sys : SysOp) (r : Bool)
      → Stops sys m.cur_state.dec.rs1 r
      → r ≡ true
      → (writes_register sys m.cur_state.dec.rs1 ≡ true)
        ⊎ ((writes_register sys m.cur_state.dec.rs1 ≡ false) × (writes_immediate sys ≡ true))
  writes_in_time SysOp.csrrw r h e = inl refl
  writes_in_time SysOp.csrrs r (inl f) e = cc
  writes_in_time SysOp.csrrs r (inr f) e = inl (ap not f)
  writes_in_time SysOp.csrrwi r h e = inr (refl, refl)
  writes_in_time SysOp.csrrsi r h e = inr (refl, refl)
  writes_in_time _ r h e = absurd h

  parts_stop :
      (sys : SysOp) (old : ℕ)
      → (writes_register sys m.cur_state.dec.rs1 ≡ true)
        ⊎ ((writes_register sys m.cur_state.dec.rs1 ≡ false) × (writes_immediate sys ≡ true))
      → csr_register m sys old ≡ trap m exp_inst_illegal
  parts_stop sys old (inl a) = register_stops sys old a
  parts_stop sys old (inr (a, b)) = skip_register d m op fits sys old a ∙ immediate_stops sys old b

  -- `csr` traps before it changes anything.
  pub csr-unreached :
      (sys : SysOp)
      → m.cur_state.dec.opt ≡ OpType.sys sys
      → Stops sys m.cur_state.dec.rs1 (can_read m.mode m.cur_state.dec.imm)
      → csr m ≡ trap m exp_inst_illegal
  unfolding csr
  csr-unreached sys e h = simp e (elim (Bool-cases (reads_csr sys m.cur_state.dec.rd)) [
    | inl f ↦ elim (Bool-cases (can_read m.mode m.cur_state.dec.imm)) [
      | inl r ↦
          rw (f, r, read-csr m m.cur_state.dec.imm fits)
            (parts_stop sys (m.csrf m.cur_state.dec.imm)
              (writes_in_time sys (can_read m.mode m.cur_state.dec.imm) h r))
      | inr r ↦ rw (f, r) refl
    ]
    | inr f ↦
        rw f (parts_stop sys 0 (inr (unread_writes sys m.cur_state.dec.rd m.cur_state.dec.rs1 f)))
  ])
