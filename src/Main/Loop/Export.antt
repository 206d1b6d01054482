-- ===== src/Main/Loop/Export.antt =====
-- What the loop of `main` exports, and what the model executes.
use riscv32_sim.Base.{List, [], ◌∷◌, Result, ok, ◌>>=◌, if◌then◌else◌}
use riscv32_sim.Common.{Externals, Op}
use riscv32_sim.Iss.Exec.{step, commit}
use riscv32_sim.Iss.Start.{done}
use riscv32_sim.Main.Loop.{Looped}
use riscv32_sim.Main.Output.{Output}
use riscv32_sim.Mti.{Turn}
use riscv32_sim.Mti.Interleaving.{System, timer_turns}
use riscv32_sim.Options.{Options}

-- The exported operations.
abbrev pub exported : Result Looped → Result (List Op)
exported r = r >>= λ l. ok l.out.state_export

module _ ⦃x : Externals⦄ where
  -- The operations that a run decodes, one for each round, in their order. The turns of the timer
  -- thread come before the rounds.
  unfoldable pub executed : List (List Turn) → System → Result (List Op)
  unfolding done
  executed [] s = ok []
  executed (ts ∷ rounds) s =
      let s' = timer_turns ts s in
      let next = step s'.model >>= λ m₁. commit m₁ >>= λ m₂.
      executed rounds (record s' { model = m₂ }) >>= λ ops. ok (m₁.cur_state.dec ∷ ops) in
      if done s'.model then ok [] else next
