-- ===== src/Iss/CsrInstr/Parts.antt =====
-- What the instructions on control and status registers write, and that the parts of `csr` write it.
use riscv32_sim.Base.{
  ℕ, ◌<◌, ◌≡◌, refl, ap, ◌∙◌, arith, true, false, not, ◌&&◌, ◌==◌, bit_or, Bool-cases, inl, inr,
  Returns, if◌then◌else◌,
}
use riscv32_sim.Base.Bits.{zero-bit_or}
use riscv32_sim.Common.{Externals, IsDocumented, SysOp}
use riscv32_sim.Iss.CsrInstr.{
  writes_register, writes_immediate, register_value, immediate_value, csr_immediate, csr_register,
}
use riscv32_sim.Iss.Sound.{IsOp}
use riscv32_sim.Iss.State.{Model}
use riscv32_sim.Iss.State.Updates.{
  csr_written, gpr_written, write_csr-csr_written, write_gpr-gpr_written, read-gpr,
}
use riscv32_sim.Zicsr.Mode.{can_read, can_write}
use riscv32_sim.Zicsr.Mode.Access.{access}

-- What the manual has each of them write, from the register's old value.
pub data Writes (m : Model) (old : ℕ) : SysOp → ℕ → Type 0 where
  csrrw : Writes m old SysOp.csrrw (m.regf m.cur_state.dec.rs1)
  csrrs : Writes m old SysOp.csrrs (bit_or (m.regf m.cur_state.dec.rs1) old)
  csrrwi : Writes m old SysOp.csrrwi m.cur_state.dec.rs1
  csrrsi : Writes m old SysOp.csrrsi (bit_or m.cur_state.dec.rs1 old)

-- The register of the address holds the new value and `rd`, which is not x0, the old one; every
-- other register, the memory, the mode, both program counters, and what the program is and whether
-- it is done are as before.
pub record Exchanges (m : Model) (new : ℕ) (m' : Model) : Type 0 where
  pub csr_new : (i : ℕ) → m'.csrf i ≡ (if m.cur_state.dec.imm == i then new else m.csrf i)
  pub gpr_new :
      (i : ℕ)
      → m'.regf i ≡ (
          if not (m.cur_state.dec.rd == 0) && m.cur_state.dec.rd == i
          then m.csrf m.cur_state.dec.imm
          else m.regf i)
  pub mem_same : m'.mem ≡ m.mem
  pub mode_same : m'.mode ≡ m.mode
  pub pc_same : m'.cur_state.pc ≡ m.cur_state.pc
  pub done_same : m'.is_done ≡ m.is_done
  pub tohost_same : m'.tohost_addr ≡ m.tohost_addr
  pub code_same : m'.allowed_pcs ≡ m.allowed_pcs
  pub opts_same : m'.opts ≡ m.opts

gpr_written-regf :
    (m : Model) (rd v i : ℕ)
    → (gpr_written m rd v).regf i ≡ (if not (rd == 0) && rd == i then v else m.regf i)
gpr_written-regf m rd v i = elim (Bool-cases (rd == 0)) [ inl e ↦ rw e refl | inr e ↦ rw e refl ]

module _ ⦃x : Externals⦄ (d : IsDocumented x) (m : Model) (op : IsOp m.cur_state.dec)
    (fits : m.cur_state.dec.imm < 4096) where
  -- The number of a general-purpose register passes for an address that every level reads.
  pub can_read-register : can_read m.mode m.cur_state.dec.rs1 ≡ true
  can_read-register = (access d m.mode m.cur_state.dec.rs1).0.1 (omega (arith, op.rs1_fits))

  -- The value goes nowhere where `rd` is x0.
  rd_value :
      (v old i : ℕ)
      → (m.cur_state.dec.rd == 0 ≡ false → old ≡ m.csrf m.cur_state.dec.imm)
      → (gpr_written m m.cur_state.dec.rd old).regf i ≡ (
          if not (m.cur_state.dec.rd == 0) && m.cur_state.dec.rd == i
          then m.csrf m.cur_state.dec.imm
          else m.regf i)
  rd_value v old i h = elim (Bool-cases (m.cur_state.dec.rd == 0)) [
    | inl e ↦ rw e refl
    | inr e ↦ rw (e, h e) refl
  ]

  written_both :
      (v old : ℕ)
      → (m.cur_state.dec.rd == 0 ≡ false → old ≡ m.csrf m.cur_state.dec.imm)
      → Exchanges m v (gpr_written (csr_written m m.cur_state.dec.imm v) m.cur_state.dec.rd old)
  written_both v old h = record {
    csr_new = λ i. refl;
    gpr_new = λ i. rd_value v old i h;
    mem_same = refl;
    mode_same = refl;
    pc_same = refl;
    done_same = refl;
    tohost_same = refl;
    code_same = refl;
    opts_same = refl;
  }

  pub register_part :
      (sys : SysOp)
      → writes_register sys m.cur_state.dec.rs1 ≡ true
      → writes_immediate sys ≡ false
      → can_write m.mode m.cur_state.dec.imm ≡ true
      → Returns
          (Exchanges m
            (register_value sys (m.regf m.cur_state.dec.rs1) (m.csrf m.cur_state.dec.imm)))
          (csr_register m sys (m.csrf m.cur_state.dec.imm))
  unfolding csr_register csr_immediate
  register_part sys a b w =
      let dec = m.cur_state.dec in
      let v = register_value sys (m.regf dec.rs1) (m.csrf dec.imm) in
      rw
        (
          a,
          can_read-register,
          read-gpr m dec.rs1 op.rs1_fits,
          w,
          write_csr-csr_written m dec.imm v fits,
          b,
          write_gpr-gpr_written (csr_written m dec.imm v) dec.rd (m.csrf dec.imm) op.rd_fits,
        )
        (record { value = _; returns = refl; holds = written_both _ _ λ h. refl })

  pub immediate_part :
      (sys : SysOp) (old : ℕ)
      → writes_immediate sys ≡ true
      → can_write m.mode m.cur_state.dec.imm ≡ true
      → (m.cur_state.dec.rd == 0 ≡ false → old ≡ m.csrf m.cur_state.dec.imm)
      → Returns
          (Exchanges m (immediate_value sys m.cur_state.dec.rs1 old))
          (csr_immediate m sys old)
  unfolding csr_immediate
  immediate_part sys old b w h =
      let dec = m.cur_state.dec in
      let v = immediate_value sys dec.rs1 old in
      rw
        (
          b,
          w,
          write_csr-csr_written m dec.imm v fits,
          write_gpr-gpr_written (csr_written m dec.imm v) dec.rd old op.rd_fits,
        )
        (record { value = _; returns = refl; holds = written_both v old h })

  pub skip_register :
      (sys : SysOp) (old : ℕ)
      → writes_register sys m.cur_state.dec.rs1 ≡ false
      → csr_register m sys old ≡ csr_immediate m sys old
  unfolding csr_register
  skip_register sys old a = rw a refl

  -- Setting the bits of x0 changes nothing.
  pub set_none :
      m.cur_state.dec.rs1 ≡ 0
      → m.regf 0 ≡ 0
      → Returns
          (Exchanges m (bit_or (m.regf m.cur_state.dec.rs1) (m.csrf m.cur_state.dec.imm)))
          (csr_immediate m SysOp.csrrs (m.csrf m.cur_state.dec.imm))
  unfolding csr_immediate
  set_none z₁ z =
      let dec = m.cur_state.dec in
      let none_set : bit_or (m.regf dec.rs1) (m.csrf dec.imm) ≡ m.csrf dec.imm =
        ap (λ i. bit_or (m.regf i) (m.csrf dec.imm)) z₁
        ∙ ap (λ v. bit_or v (m.csrf dec.imm)) z
        ∙ zero-bit_or (m.csrf dec.imm) in
      rw (write_gpr-gpr_written m dec.rd (m.csrf dec.imm) op.rd_fits) (record {
        value = _;
        returns = refl;
        holds = record {
          csr_new = λ i. ground (arith, none_set);
          gpr_new = λ i. rd_value 0 (m.csrf dec.imm) i λ h. refl;
          mem_same = refl;
          mode_same = refl;
          pc_same = refl;
          done_same = refl;
          tohost_same = refl;
          code_same = refl;
          opts_same = refl;
        };
      })
