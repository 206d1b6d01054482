-- ===== src/Tests/Traps.antt =====
-- The theorems on traps at concrete inputs.
use riscv32_sim.Base.{◌≡◌, refl, arith, true, false, ok, if◌then◌else◌, Returns, ◌>>=◌}
use riscv32_sim.Iss.Trap.{trap, handle_mret}
use riscv32_sim.Iss.Trap.{PcCase, pc_case}
use riscv32_sim.Iss.Trap.ExceptionReturn.{IsBack, trap_exception-handle_mret}
use riscv32_sim.Iss.Trap.Return.{IsResumed, trap_timer-handle_mret}
use riscv32_sim.Iss.Trap.Exceptions.{entered_by, trap-exception}
use riscv32_sim.Iss.Trap.Interrupts.{timer_taken, acknowledged, trap-timer}
use riscv32_sim.Tests.Libraries.{libraries, libraries-IsDocumented}
use riscv32_sim.Tests.Machine.{ready}
use riscv32_sim.TrapCause.{exp_inst_illegal, int_timer_m}
use riscv32_sim.Zicsr.Mode.{set_mode}

trap-exception_example : trap ready exp_inst_illegal ≡ ok (entered_by false ready exp_inst_illegal)
unfolding set_mode
trap-exception_example =
    trap-exception libraries-IsDocumented ready refl exp_inst_illegal (omega arith) (omega arith)
      (omega arith)

trap-timer_example :
    trap ready int_timer_m
    ≡ ok (if timer_taken ready then entered_by true (acknowledged ready) int_timer_m else ready)
unfolding set_mode
trap-timer_example = trap-timer libraries-IsDocumented ready refl (omega arith) (omega arith)

trap_timer-handle_mret_example : Returns (IsResumed ready) (trap ready int_timer_m >>= handle_mret)
trap_timer-handle_mret_example =
    trap_timer-handle_mret libraries-IsDocumented ready refl (omega arith) (omega arith) refl

trap_exception-handle_mret_example :
    Returns (IsBack PcCase.default ready) (trap ready exp_inst_illegal >>= handle_mret)
unfolding pc_case
trap_exception-handle_mret_example =
    trap_exception-handle_mret libraries-IsDocumented ready exp_inst_illegal refl (omega arith)
      (omega arith) (omega arith)
