-- ===== src/Tests/Faults.antt =====
-- The theorem on the exceptions at an operation that does not fit its target.
use riscv32_sim.Base.{◌≡◌, arith, err, bad_variant_access}
use riscv32_sim.Common.{Target}
use riscv32_sim.Iss.Exec.{exec}
use riscv32_sim.Iss.Faults.{EndsWith, exec-faults}
use riscv32_sim.Iss.State.{Model}
use riscv32_sim.Tests.Libraries.{libraries, addi}
use riscv32_sim.Tests.Machine.{hart, ready}

-- The decoder's operation of `addi`, but with the target of a load.
abbrev confused : Model
confused = record ready { cur_state = hart (record addi { tgt = Target.load }) }

exec-faults_example : exec confused ≡ err bad_variant_access
exec-faults_example =
    exec-faults confused (omega arith) (omega arith) bad_variant_access (EndsWith.other (λ l. cc))
