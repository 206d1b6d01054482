-- ===== src/Tests/Exports.antt =====
-- The theorems on the JSON export and the TCP server at concrete inputs.
use riscv32_sim.Base.{◌≡◌, refl, arith, false, List, [], ◌∷◌, err, runtime_error}
use riscv32_sim.Common.{OpType, Alu, LoadOp, StoreOp, BranchOp, SysOp}
use riscv32_sim.Ipc.Server.{Event, accepted, completed, signalled, sigint, server, handles}
use riscv32_sim.Ipc.Server
use riscv32_sim.Ipc.Serving.{IsServing, AreAsio, any_signal, run-server-IsServing}
use riscv32_sim.Ipc.Session.{read_done, write_done, complete, start, session}
use riscv32_sim.Json.Operation.{Enumerators, to_json, from_json}
use riscv32_sim.Json.Operation.Laws.{from_json-to_json}

abbrev enumerators : Enumerators
enumerators = record {
  alu_value = λ a. 4;
  load_value = λ l. 0;
  store_value = λ s. 0;
  branch_value = λ b. 0;
  sys_value = λ s. 0;
  alu_of = λ n. Alu.sub;
  load_of = λ n. LoadOp.lb;
  store_of = λ n. StoreOp.sb;
  branch_of = λ n. BranchOp.beq;
  sys_of = λ n. SysOp.csrrw;
}

from_json-to_json_example :
    from_json enumerators (to_json enumerators (OpType.alu Alu.sub)) OpType.monostate
    ≡ (OpType.alu Alu.sub, err runtime_error)
from_json-to_json_example =
    from_json-to_json enumerators (OpType.alu Alu.sub) OpType.monostate (omega arith, refl)

-- A connection, a message that comes back, and an interrupt.
abbrev events : List Event
events =
    accepted false
    ∷ completed 0 (read_done false (104 ∷ 105 ∷ []))
    ∷ completed 0 (write_done false 2)
    ∷ signalled sigint
    ∷ []

events-AreAsio : AreAsio events (Server.run (server 5))
unfolding Server.handles Server.run Server.server complete start session
events-AreAsio = (tt, (omega arith, (omega arith, (tt, tt))))

run-server-IsServing_example :
    IsServing (handles events (Server.run (server 5)))
    × ((handles events (Server.run (server 5))).stopped ≡ any_signal events)
run-server-IsServing_example = run-server-IsServing 5 events events-AreAsio
