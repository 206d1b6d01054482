-- ===== src/Iss/Sound/Steps.antt =====
-- One instruction, and the interrupt check after it, return and keep the invariant.
use riscv32_sim.Base.{
  ◌+◌, ◌^◌, ◌<◌, refl, arith, not, ok, ◌==◌, if◌then◌else◌, Bool-cases, inl, inr, Returns,
  Returns-bind, bit_and,
}
use riscv32_sim.Base.Word.{u32}
use riscv32_sim.Common.{Externals, IsDocumented, Target}
use riscv32_sim.Iss.Exec.{is_valid_pc, instr_length, fetch, exec, dispatch, step}
use riscv32_sim.Iss.Sound.{Matches, IsOp, IsDecoder, IsSound, IsStaged}
use riscv32_sim.Iss.Sound.Accesses.{handle_load-IsStaged, store-IsStaged}
use riscv32_sim.Iss.Sound.CsrInstrs.{csr-IsStaged, handle_mret-IsStaged}
use riscv32_sim.Iss.Sound.Handlers.{IsDefined, handle_branch-IsStaged, handle_alu-IsStaged}
use riscv32_sim.Iss.Sound.Traps.{IsAfterTrap, trap-IsAfterTrap}
use riscv32_sim.Iss.Sound.Writes.{cur_state-IsSound, set_pc-IsStaged}
use riscv32_sim.Iss.State.{Model, pc_of, set_pc}
use riscv32_sim.Iss.Trap.{ecall_cause, trap}
use riscv32_sim.Memory.Router
use riscv32_sim.Memory.Words.{read32-lt}
use riscv32_sim.TrapCause.{
  TrapCause, exp_inst_access_fault, exp_inst_illegal, exp_breakpoint, int_timer_m,
}
use riscv32_sim.TrapCause
use riscv32_sim.Zicsr.Mode.{Privilege, user, supervisor, hypervisor, machine}

module _ ⦃x : Externals⦄ where
  -- The state from which `exec` starts.
  abbrev pub decoded : Model → Model
  decoded m = let m₁ = fetch m in set_pc m₁ (u32 (pc_of m₁ + instr_length m₁.cur_state.dec))

module _ ⦃x : Externals⦄ (d : IsDocumented x) where
  exception-IsStaged :
      (m : Model) (cause : TrapCause)
      → TrapCause.to_int cause < 2 ^ 31
      → IsStaged m
      → Returns IsStaged (trap m cause)
  exception-IsStaged m cause h s =
      let t = trap-IsAfterTrap d m cause h s in
      record { value = t.value; returns = t.returns; holds = t.holds.staged }

  ecall_cause-lt : (m : Model) → TrapCause.to_int (ecall_cause m) < 2 ^ 31
  unfolding ecall_cause
  ecall_cause-lt m = at_level m.mode.m
    where
      at_level :
          (p : Privilege)
          → TrapCause.to_int (elim p [
            | user ↦ TrapCause.exp_ecall_from_u_vu_mode
            | supervisor ↦ TrapCause.exp_ecall_from_vs_mode
            | hypervisor ↦ TrapCause.exp_ecall_from_hs_mode
            | machine ↦ TrapCause.exp_ecall_from_m_mode
          ])
            < 2 ^ 31
      at_level user = omega arith
      at_level supervisor = omega arith
      at_level hypervisor = omega arith
      at_level machine = omega arith

  dispatch-IsStaged :
      (m : Model) (t : Target)
      → Matches t m.cur_state.dec
      → IsDefined m
      → IsStaged m
      → Returns IsStaged (dispatch t m)
  unfolding dispatch
  dispatch-IsStaged m Target.store h c s = store-IsStaged d m s h
  dispatch-IsStaged m Target.alu h c s = handle_alu-IsStaged d m s h c
  dispatch-IsStaged m Target.load h c s = handle_load-IsStaged d m s h
  dispatch-IsStaged m Target.branch h c s = handle_branch-IsStaged d m s h
  dispatch-IsStaged m Target.csr h c s = csr-IsStaged d m h s
  dispatch-IsStaged m Target.mret h c s = handle_mret-IsStaged d m s
  dispatch-IsStaged m Target.ecall h c s = exception-IsStaged m _ (ecall_cause-lt m) s
  dispatch-IsStaged m Target.illegal h c s = exception-IsStaged m _ (omega arith) s
  dispatch-IsStaged m Target.ebreak h c s = exception-IsStaged m _ (omega arith) s
  dispatch-IsStaged m (Target.unnamed n) h c s = record { value = m; returns = refl; holds = s }

  -- A decoded instruction at which C++ defines the arithmetic runs to its end, whatever its
  -- target, and keeps the invariant.
  pub exec-IsStaged : (m : Model) → IsDefined m → IsStaged m → Returns IsStaged (exec m)
  unfolding exec
  exec-IsStaged m c s = dispatch-IsStaged m m.cur_state.dec.tgt s.op.matches c s

  fetch-IsOp : IsDecoder x → (m : Model) → IsSound m → IsOp (fetch m).cur_state.dec
  unfolding fetch
  fetch-IsOp k m s =
      let w = Router.read32 m.mem (pc_of m) in
      let h : w < 2 ^ 32 =
        unfold Router.read32 in read32-lt m.mem.page (pc_of m) s.mem_bytes.page_bytes s.pc_fits in
      elim (Bool-cases (not (bit_and w 3 == 3))) [
        | inl e ↦ rw e (k.decode16-IsOp w h)
        | inr e ↦ rw e (k.decode-IsOp w h)
      ]

  fetch-IsSound : (m : Model) → IsSound m → IsSound (fetch m)
  unfolding fetch
  fetch-IsSound m s = cur_state-IsSound m (fetch m).cur_state s.pc_fits s

  pub decoded-IsStaged : IsDecoder x → (m : Model) → IsSound m → IsStaged (decoded m)
  decoded-IsStaged k m s =
      set_pc-IsStaged d (fetch m) _ (omega arith) (fetch-IsSound m s) (fetch-IsOp k m s)

  -- Also where the program counter is outside of the program, the instruction is executed.
  guard-IsAfterTrap :
      (m : Model)
      → IsStaged m
      → Returns
          (IsAfterTrap m)
          (if not (is_valid_pc m (pc_of m)) then trap m exp_inst_access_fault else ok m)
  guard-IsAfterTrap m s = elim (Bool-cases (is_valid_pc m (pc_of m))) [
    | inl e ↦ rw e (record {
      value = m;
      returns = refl;
      holds = record { staged = s; same_gpr = refl; same_dec = refl; same_pc = refl };
    })
    | inr e ↦ rw e (trap-IsAfterTrap d m exp_inst_access_fault (omega arith) s)
  ]

  same-IsDefined : (m m' : Model) → IsAfterTrap m m' → IsDefined m → IsDefined m'
  same-IsDefined m m' a c = rw (a.same_dec, a.same_gpr, a.same_pc) c

  -- From a sound state `step` returns, without a fault, in a sound state with a decoded
  -- instruction and a next program counter that is a word: whatever the memory, the registers and
  -- the program counter are. It takes the libraries as documented, a decoder that gives operations
  -- of the instruction set, and an instruction at which C++ defines the arithmetic.
  pub step-IsStaged :
      IsDecoder x → (m : Model) → IsSound m → IsDefined (decoded m) → Returns IsStaged (step m)
  unfolding step
  step-IsStaged k m s c =
      Returns-bind (IsAfterTrap (decoded m)) IsStaged _ exec
        (guard-IsAfterTrap (decoded m) (decoded-IsStaged k m s))
        (λ m' a. exec-IsStaged m' (same-IsDefined (decoded m) m' a c) a.staged)
