-- ===== src/Iss/Sound/Traps.antt =====
-- Traps keep the invariant.
use riscv32_sim.Base.{
  ℕ, ◌+◌, ◌*◌, ◌/◌, ◌^◌, ◌<◌, ◌≡◌, refl, ap, ◌∙◌, arith, true, false, ◌==◌, Bool-cases, inl, inr,
  Returns,
}
use riscv32_sim.Common.{Externals, IsDocumented, HartState}
use riscv32_sim.Iss.Sound.{IsOp, IsSound, IsStaged}
use riscv32_sim.Iss.Sound.Writes.{
  csr_written-IsSound, csr_written-IsStaged, mem-IsStaged, set_pc-IsStaged, write32-IsMemory,
}
use riscv32_sim.Iss.State.{Model, pc_of}
use riscv32_sim.Iss.Trap.{PcCase, ecall, breakpoint, default, pc_case, trap}
use riscv32_sim.Iss.Trap.Exceptions.{
  saved_pc, entered, exited, after_save, entered_by, trap-exception,
}
use riscv32_sim.Iss.Trap.Numbers.{trap_base}
use riscv32_sim.TrapCause.{TrapCause}
use riscv32_sim.TrapCause

module _ ⦃x : Externals⦄ where
  pub saved_pc-lt : (k : PcCase) (pc : ℕ) → pc < 2 ^ 32 → saved_pc k pc < 2 ^ 32
  saved_pc-lt ecall pc h = omega arith
  saved_pc-lt breakpoint pc h = omega arith
  saved_pc-lt default pc h = omega arith

  -- A state from which an instruction goes on as from `m`: the operands are the same.
  pub record IsAfterTrap (m m' : Model) : Type 0 where
    pub staged : IsStaged m'
    pub same_gpr : m'.regf ≡ m.regf
    pub same_dec : m'.cur_state.dec ≡ m.cur_state.dec
    pub same_pc : pc_of m' ≡ pc_of m

module _ ⦃x : Externals⦄ (d : IsDocumented x) where
  pub entered-IsStaged :
      (m : Model) (n entry epc : ℕ)
      → n < 2 ^ 32
      → entry < 2 ^ 32
      → epc < 2 ^ 32
      → IsSound m
      → IsOp m.cur_state.dec
      → IsStaged (entered m n entry epc)
  entered-IsStaged m n entry epc hn he hp s op = csr_written-IsStaged _ _ epc hp (
      set_pc-IsStaged d _ entry he
        (csr_written-IsSound _ _ 0 (omega arith) (csr_written-IsSound m _ n hn s)) op)

  exited-IsStaged : (m : Model) → IsStaged m → IsStaged (exited m)
  exited-IsStaged m s = elim (Bool-cases (m.regf 17 == 93)) [
    | inl e ↦ rw e (
        mem-IsStaged m _ true
          (write32-IsMemory d m.mem m.tohost_addr (m.regf 10) s.sound.tohost_fits s.sound.mem_bytes)
          s)
    | inr e ↦ rw e s
  ]

  pub after_save-IsStaged : (k : PcCase) (m : Model) → IsStaged m → IsStaged (after_save k m)
  after_save-IsStaged ecall m s = exited-IsStaged m s
  after_save-IsStaged breakpoint m s = s
  after_save-IsStaged default m s = s

  after_save_keeps :
      (k : PcCase) (m : Model)
      → ((after_save k m).regf ≡ m.regf) × ((after_save k m).cur_state ≡ m.cur_state)
  after_save_keeps ecall m = elim (Bool-cases (m.regf 17 == 93)) [
    | inl e ↦ rw e (refl, refl)
    | inr e ↦ rw e (refl, refl)
  ]
  after_save_keeps breakpoint m = (refl, refl)
  after_save_keeps default m = (refl, refl)

  -- An exception from within an instruction returns and keeps the invariant, and it leaves the
  -- general-purpose registers, the decoded instruction and the current program counter as they
  -- were.
  pub trap-IsAfterTrap :
      (m : Model) (cause : TrapCause)
      → TrapCause.to_int cause < 2 ^ 31
      → IsStaged m
      → Returns (IsAfterTrap m) (trap m cause)
  trap-IsAfterTrap m cause h s =
      let tvec = m.csrf (trap_base m.mode.m + 0x05) in
      let k = pc_case cause in
      let tvec_fits = s.sound.csr_fits (trap_base m.mode.m + 0x05) in
      let epc = saved_pc k (pc_of m) in
      let m' = entered m (TrapCause.to_int cause) (tvec / 4 * 4) epc in
      let kept = after_save_keeps k m' in
      record {
        value = entered_by false m cause;
        returns = trap-exception d m s.sound.mode_set cause h s.sound.pc_fits tvec_fits;
        holds = record {
          staged = after_save-IsStaged k m' (
              entered-IsStaged m _ _ epc (omega arith) (omega arith)
                (saved_pc-lt k (pc_of m) s.sound.pc_fits) s.sound s.op);
          same_gpr = kept.0;
          same_dec = ap (λ (c : HartState). c.dec) kept.1;
          same_pc = ap (λ (c : HartState). x.pc_value c.pc) kept.1 ∙ d.pc_value-set _ _;
        };
      }
