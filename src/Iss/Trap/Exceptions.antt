-- ===== src/Iss/Trap/Exceptions.antt =====
-- What `trap` does for an exception.
use riscv32_sim.Base.{
  ℕ, ◌+◌, ◌*◌, ◌/◌, ◌^◌, ◌<◌, ◌≡◌, refl, ◌∙◌, arith, Bool, true, false, ok, if◌then◌else◌, ◌==◌,
}
use riscv32_sim.Base.Word.{u32}
use riscv32_sim.Common.{Externals, IsDocumented}
use riscv32_sim.Iss.State.{Model, pc_of, set_pc, update_pc}
use riscv32_sim.Iss.State.Updates.{csr_written, write_csr-csr_written, read-csr, read-gpr}
use riscv32_sim.Iss.Trap.{
  PcCase, ecall, breakpoint, default, pc_case, handle_sys_exit, save_pc, enter, trap, is_interrupt,
  interrupt_number,
}
use riscv32_sim.Iss.Trap.Numbers.{
  is_interrupt-leb, bit_and-base_addr, trap_base, trap_base-le, priv_csr-trap_base,
}
use riscv32_sim.Memory.Router
use riscv32_sim.TrapCause.{TrapCause}
use riscv32_sim.TrapCause
use riscv32_sim.Zicsr.Mode.{set_mode}

module _ ⦃x : Externals⦄ where
  -- The address that is saved: of the instruction, or behind it, cut to a multiple of four.
  abbrev pub saved_pc : PcCase → ℕ → ℕ
  saved_pc ecall pc = pc / 4 * 4
  saved_pc breakpoint pc = pc / 4 * 4
  saved_pc default pc = u32 (pc / 4 * 4 + 4)

  -- The state with the trap registers of its level written and the handler's address staged.
  abbrev pub entered : Model → ℕ → ℕ → ℕ → Model
  entered m cause entry epc =
      let base = trap_base m.mode.m in
      csr_written (set_pc (csr_written (csr_written m (base + 0x42) cause) (base + 0x43) 0) entry)
        (base + 0x41) epc

  -- `handle_sys_exit` on a state with 32 registers.
  abbrev pub exited : Model → Model
  exited m =
      if m.regf 17 == 93
      then record m { mem = Router.write32 m.mem m.tohost_addr (m.regf 10); is_done = true }
      else m

  pub handle_sys_exit-exited : (m : Model) → handle_sys_exit m ≡ ok (exited m)
  unfolding handle_sys_exit
  handle_sys_exit-exited m =
      rw (read-gpr m 17 (omega arith), read-gpr m 10 (omega arith)) (ground arith)

  abbrev pub after_save : PcCase → Model → Model
  after_save ecall m = exited m
  after_save _ m = m

-- A level has its registers inside the file.
register-lt : (m : Model) → trap_base m.mode.m + 0x43 < 4096
register-lt m = omega (arith, trap_base-le m.mode.m)

module _ ⦃x : Externals⦄ (d : IsDocumented x) (m : Model)
    (mode_set : m.mode ≡ set_mode m.mode.m) where
  pub save_pc-after_save :
      (cause : TrapCause) (k : PcCase)
      → pc_case cause ≡ k
      → pc_of m < 2 ^ 32
      → save_pc m cause
        ≡ ok (after_save k (csr_written m (trap_base m.mode.m + 0x41) (saved_pc k (pc_of m))))
  unfolding save_pc
  save_pc-after_save cause ecall e fits =
      rw
        (
          e,
          save_pc,
          (priv_csr-trap_base m.mode mode_set).0,
          bit_and-base_addr d (pc_of m) fits,
          write_csr-csr_written m (trap_base m.mode.m + 0x41) (pc_of m / 4 * 4)
              (omega (arith, register-lt m)),
        )
        (handle_sys_exit-exited _)
  save_pc-after_save cause breakpoint e fits =
      rw (e, save_pc, (priv_csr-trap_base m.mode mode_set).0, bit_and-base_addr d (pc_of m) fits)
        (write_csr-csr_written m (trap_base m.mode.m + 0x41) (pc_of m / 4 * 4)
          (omega (arith, register-lt m)))
  save_pc-after_save cause default e fits =
      let aligned : u32 (pc_of m / 4 * 4 + 4) / 4 * 4 ≡ u32 (pc_of m / 4 * 4 + 4) = omega arith in
      rw
        (
          e,
          save_pc,
          (priv_csr-trap_base m.mode mode_set).0,
          bit_and-base_addr d (pc_of m) fits,
          bit_and-base_addr d (u32 (pc_of m / 4 * 4 + 4)) (omega arith),
          aligned,
        )
        (write_csr-csr_written m (trap_base m.mode.m + 0x41) (u32 (pc_of m / 4 * 4 + 4))
          (omega (arith, register-lt m)))

-- The handler's address: an interrupt has a slot of four bytes behind the base.
abbrev pub entry_of : Bool → ℕ → ℕ → ℕ
entry_of interrupt tvec number =
    if interrupt then u32 (tvec / 4 * 4 + u32 (number * 4)) else tvec / 4 * 4

module _ ⦃x : Externals⦄ where
  abbrev pub entered_by : Bool → Model → TrapCause → Model
  entered_by interrupt m cause =
      let tvec = m.csrf (trap_base m.mode.m + 0x05) in
      let m' = after_save (pc_case cause) (
        entered m (TrapCause.to_int cause) (entry_of interrupt tvec (interrupt_number cause))
          (saved_pc (pc_case cause) (pc_of m))) in
      if interrupt then update_pc m' else m'

module _ ⦃x : Externals⦄ (d : IsDocumented x) (m : Model)
    (mode_set : m.mode ≡ set_mode m.mode.m) where
  pub enter-entered_by :
      (cause : TrapCause) (interrupt : Bool)
      → is_interrupt cause ≡ interrupt
      → pc_of m < 2 ^ 32
      → m.csrf (trap_base m.mode.m + 0x05) < 2 ^ 32
      → enter m cause ≡ ok (entered_by interrupt m cause)
  unfolding enter
  enter-entered_by cause interrupt kind fits tvec_fits =
      let base = trap_base m.mode.m in
      let n = TrapCause.to_int cause in
      let tvec = m.csrf (base + 0x05) in
      let regs = priv_csr-trap_base m.mode mode_set in
      let m₁ = csr_written m (base + 0x42) n in
      let m₂ = csr_written m₁ (base + 0x43) 0 in
      let m₃ = set_pc m₂ (entry_of interrupt tvec (interrupt_number cause)) in
      let pc_kept : pc_of m₃ ≡ pc_of m = d.pc_value-set _ _ in
      let tvec_kept : m₂.csrf (base + 0x05) ≡ tvec = ground arith in
      rw (
        kind,
        regs.1,
        write_csr-csr_written m (base + 0x42) n (omega (arith, register-lt m)),
        regs.2,
        write_csr-csr_written m₁ (base + 0x43) 0 (omega (arith, register-lt m)),
        regs.3,
        read-csr m₂ (base + 0x05) (omega (arith, register-lt m)),
        tvec_kept,
        bit_and-base_addr d tvec tvec_fits,
        save_pc-after_save d m₃ mode_set cause (pc_case cause) refl (rw pc_kept fits),
        pc_kept,
      )

  -- In a state whose mode is consistent and whose program counter and trap vector are words,
  -- `trap` of an exception returns the state in which the cause, zero and the address to return to
  -- are written, in this order, to the registers of the current level, and the aligned trap vector
  -- is staged as the next program counter; an environment call with 93 in a7 moreover stores a0 at
  -- `tohost` and ends the run.
  pub trap-exception :
      (cause : TrapCause)
      → TrapCause.to_int cause < 2 ^ 31
      → pc_of m < 2 ^ 32
      → m.csrf (trap_base m.mode.m + 0x05) < 2 ^ 32
      → trap m cause ≡ ok (entered_by false m cause)
  unfolding trap
  trap-exception cause h fits tvec_fits =
      let not_interrupt : is_interrupt cause ≡ false = is_interrupt-leb d cause ∙ ground arith in
      rw not_interrupt (enter-entered_by cause false not_interrupt fits tvec_fits)
