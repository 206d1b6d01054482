-- ===== src/Iss/Manual/System.antt =====
-- `mret` and the instructions that trap by their target do what the hart does.
use riscv32_sim.Base.{◌≡◌, sym, subst, Result, Returns}
use riscv32_sim.Common.{Externals, IsDocumented, Target}
use riscv32_sim.Iss.Manual.{Executes, view}
use riscv32_sim.Iss.Manual.Traps.{Exception, Raises, trapped}
use riscv32_sim.Iss.Manual.Exceptions.{illegal-Traps, breakpoint-Traps, call-Traps}
use riscv32_sim.Iss.Manual.Handlers.{Does}
use riscv32_sim.Iss.Sound.{IsStaged}
use riscv32_sim.Iss.State.{Model, update_pc}
use riscv32_sim.Iss.Trap.{handle_mret, trap, ecall_cause}
use riscv32_sim.TrapCause.{exp_inst_illegal, exp_breakpoint}
use riscv32_sim.Iss.Trap.Return.{returned, handle_mret-returned}
use riscv32_sim.Zicsr.Mode.{set_mode}

module _ ⦃x : Externals⦄ (d : IsDocumented x) (m : Model) where
  pub handle_mret-Does : m.cur_state.dec.tgt ≡ Target.mret → Returns (Does m) (handle_mret m)
  unfolding set_mode
  handle_mret-Does t = record {
    value = returned m;
    returns = handle_mret-returned m;
    holds = rw (d.pc_value-update-set m.cur_state.pc (m.csrf 0x341)) (Executes.returns t);
  }

module _ ⦃x : Externals⦄ (d : IsDocumented x) (m : Model) (s : IsStaged m) where
  -- A trap that the instruction has by its target.
  pub raised-Does :
      (e : Exception) (r : Result Model)
      → Raises m.cur_state.dec (view m) e
      → Returns (λ m₁. view (update_pc m₁) ≡ trapped e (view m)) r
      → Returns (Does m) r
  raised-Does e r raised done = record {
    value = done.value;
    returns = done.returns;
    holds = subst (Executes m.cur_state.dec (view m)) (sym done.holds) (Executes.traps e raised);
  }

  pub illegal-Does :
      m.cur_state.dec.tgt ≡ Target.illegal → Returns (Does m) (trap m exp_inst_illegal)
  illegal-Does t = raised-Does Exception.illegal _ (Raises.is_illegal t) (illegal-Traps d m s.sound)

  pub breakpoint-Does :
      m.cur_state.dec.tgt ≡ Target.ebreak → Returns (Does m) (trap m exp_breakpoint)
  breakpoint-Does t =
      raised-Does Exception.breakpoint _ (Raises.is_breakpoint t) (breakpoint-Traps d m s.sound)

  pub call-Does : m.cur_state.dec.tgt ≡ Target.ecall → Returns (Does m) (trap m (ecall_cause m))
  call-Does t = raised-Does Exception.call _ (Raises.is_call t) (call-Traps d m s.sound)
