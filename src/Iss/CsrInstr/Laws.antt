-- ===== src/Iss/CsrInstr/Laws.antt =====
-- The instructions that put a value or set bits in a control and status register.
use riscv32_sim.Base.{
  ℕ, ◌<◌, ◌≡◌, refl, ap, arith, true, false, not, ◌==◌, ◌⊎◌, Bool-cases, inl, inr, Returns,
}
use riscv32_sim.Common.{Externals, IsDocumented, OpType, SysOp}
use riscv32_sim.Iss.CsrInstr.{writes_register, csr}
use riscv32_sim.Iss.Sound.{IsOp}
use riscv32_sim.Iss.State.{Model}
use riscv32_sim.Iss.State.Updates.{read-csr}
use riscv32_sim.Zicsr.Mode.{can_read, can_write}
use riscv32_sim.Iss.CsrInstr.Parts.{
  Writes, csrrw, csrrs, csrrwi, csrrsi, Exchanges, register_part, immediate_part, skip_register,
  set_none,
}

module _ ⦃x : Externals⦄ (d : IsDocumented x) (m : Model) (op : IsOp m.cur_state.dec)
    (fits : m.cur_state.dec.imm < 4096) where
  -- csrrs with x0 only reads.
  abbrev pub MayWrite : SysOp → Type 0
  MayWrite sys =
      ((sys ≡ SysOp.csrrs) × (m.cur_state.dec.rs1 ≡ 0))
      ⊎ (can_write m.mode m.cur_state.dec.imm ≡ true)

  -- With libraries as documented, for a decoded csrrw, csrrs, csrrwi or csrrsi whose register the
  -- current level reads and, unless it is csrrs with x0, writes, and with zero in x0, `csr`
  -- returns a state in which the register of the address holds what the manual has the instruction
  -- write, `rd`, if it is not x0, the old value, and every other register, the memory, the mode,
  -- the program counters and the end of the program are as before. The two instructions that clear
  -- bits are left out.
  pub csr-Exchanges :
      (sys : SysOp) (new : ℕ)
      → m.cur_state.dec.opt ≡ OpType.sys sys
      → m.regf 0 ≡ 0
      → can_read m.mode m.cur_state.dec.imm ≡ true
      → MayWrite sys
      → Writes m (m.csrf m.cur_state.dec.imm) sys new
      → Returns (Exchanges m new) (csr m)
  unfolding csr
  csr-Exchanges sys new e z r (inl (f, g)) csrrw = cc
  csr-Exchanges sys new e z r (inr w) csrrw = simp e (
      rw (r, read-csr m m.cur_state.dec.imm fits)
        (register_part d m op fits SysOp.csrrw refl refl w))
  csr-Exchanges sys new e z r (inl (f, g)) csrrs = simp e (
      let none_set : writes_register SysOp.csrrs m.cur_state.dec.rs1 ≡ false = rw g refl in
      rw
        (
          r,
          read-csr m m.cur_state.dec.imm fits,
          skip_register d m op fits SysOp.csrrs (m.csrf m.cur_state.dec.imm) none_set,
        )
        (set_none d m op fits g z))
  csr-Exchanges sys new e z r (inr w) csrrs = simp e (
      rw (r, read-csr m m.cur_state.dec.imm fits)
        (elim (Bool-cases (m.cur_state.dec.rs1 == 0)) [
          | inl f ↦
              rw (skip_register d m op fits SysOp.csrrs (m.csrf m.cur_state.dec.imm) (ap not f))
                (set_none d m op fits (ground arith) z)
          | inr f ↦ register_part d m op fits SysOp.csrrs (ap not f) refl w
        ]))
  csr-Exchanges sys new e z r (inl (f, g)) csrrwi = cc
  csr-Exchanges sys new e z r (inr w) csrrwi = simp e (elim (Bool-cases (m.cur_state.dec.rd == 0)) [
    | inl f ↦
        rw (f, skip_register d m op fits SysOp.csrrwi 0 refl)
          (immediate_part d m op fits SysOp.csrrwi 0 refl w λ h. cc)
    | inr f ↦
        rw
          (
            f,
            r,
            read-csr m m.cur_state.dec.imm fits,
            skip_register d m op fits SysOp.csrrwi (m.csrf m.cur_state.dec.imm) refl,
          )
          (immediate_part d m op fits SysOp.csrrwi (m.csrf m.cur_state.dec.imm) refl w λ h. refl)
  ])
  csr-Exchanges sys new e z r (inl (f, g)) csrrsi = cc
  csr-Exchanges sys new e z r (inr w) csrrsi = simp e (
      rw
        (
          r,
          read-csr m m.cur_state.dec.imm fits,
          skip_register d m op fits SysOp.csrrsi (m.csrf m.cur_state.dec.imm) refl,
        )
        (immediate_part d m op fits SysOp.csrrsi (m.csrf m.cur_state.dec.imm) refl w λ h. refl))
