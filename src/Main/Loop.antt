-- ===== src/Main/Loop.antt =====
-- `run` with all that it writes: the dump, the branch for the TCP server, the loop and what follows
-- it (riscv32-sim/src/main.cpp).
pub mod Laws
pub mod Export
pub mod Runs
use Prim.Native.String.{String}
use text.Mathlib.Text.{◌==◌}
use riscv32_sim.Base.{
  ℕ, Bool, true, false, not, ◌&&◌, ◌||◌, List, [], ◌∷◌, ◌++◌, map, Option, none, some, Result, ok,
  err, ◌>>=◌, if◌then◌else◌,
}
use riscv32_sim.Base as Base
use riscv32_sim.Common.{Externals, HartState}
use riscv32_sim.Iss.Exec.{step, commit}
use riscv32_sim.Iss.Start.{done, tohost, set_up}
use riscv32_sim.Iss.State.{Model, pc_of}
use riscv32_sim.Loader.Image.{Elf, Elfio, open_elf}
use riscv32_sim.Main.Output.{Line, operation, gpr, csr, exited, Output, no_output}
use riscv32_sim.Ipc.Server.{Event}
use riscv32_sim.Main.Serve.{Served, serve, goes_on}
use riscv32_sim.Mti.{Phase, finished, Turn, advances, destroy}
use riscv32_sim.Mti.Interleaving.{System, timer_turns, start_system}
use riscv32_sim.Options.{Options}

-- `opt.fstep && std::cin.get() == 'q'`: a character is taken from the input only in the manual
-- mode, and behind its end there is none.
unfoldable pub manual_step : Options → List ℕ → Bool × List ℕ
manual_step opt [] = (false, [])
manual_step opt (c ∷ input) = if opt.fstep then (Base.◌==◌ c b'q', input) else (false, c ∷ input)

-- What the loop has come to.
pub record Looped : Type 0 where
  pub ended : Bool
  pub system : System
  pub out : Output

-- The turns of the timer thread: those before each round of the loop, and those behind the loop.
pub record Schedule : Type 0 where
  pub rounds : List (List Turn)
  pub at_exit : List Turn

abbrev pub is_finished : Phase → Bool
is_finished finished = true
is_finished _ = false

module _ ⦃x : Externals⦄ where
  -- The changes and the instruction that `step` staged.
  unfoldable pub log_step : Options → Model → Output → Output
  log_step opt m out =
      let state = m.cur_state in
      record out {
        terminal =
            out.terminal
            ++ (operation state.dec ∷ (map gpr state.gpr_staged ++ map csr state.csr_staged));
        disas =
            if opt.disas_output == "" then out.disas else out.disas ++ (pc_of m, state.instr) ∷ [];
        state_export =
            if opt.json_output == "" then out.state_export else out.state_export ++ state.dec ∷ [];
      }

  -- For as many rounds as `rounds` has entries, which are the turns of the timer thread before
  -- each. `ended` says that the condition of the loop was found false.
  unfoldable pub loop : List (List Turn) → Options → List ℕ → System → Output → Result Looped
  unfolding log_step manual_step done
  loop [] opt input s out = ok (record { ended = false; system = s; out = out })
  loop (ts ∷ rounds) opt input s out =
      let s' = timer_turns ts s in
      let (forced, input') = manual_step opt input in
      let round = step s'.model >>= λ m₁.
      commit m₁ >>= λ m₂. loop rounds opt input' (record s' { model = m₂ }) (log_step opt m₁ out) in
      if forced || not (done s'.model)
      then round
      else ok (record { ended = true; system = s'; out = out })

  -- What follows the loop.
  unfoldable pub finish : Options → Model → Output → Output
  finish opt m out = record out {
    terminal = out.terminal ++ exited opt.target (tohost m) ∷ [];
    files =
        if opt.json_output == ""
        then out.files
        else out.files ++ (opt.json_output, out.state_export) ∷ [];
  }

  -- The end of `run`, with the destructor of `mt`, which joins the thread: nothing while the loop
  -- goes on or the thread has not finished. The exit code is 0 whatever the guest program returns.
  unfoldable pub leave : List Turn → Options → Looped → Option (ℕ × Output)
  unfolding finish
  leave at_exit opt l =
      if l.ended && is_finished (advances at_exit (destroy l.system.mt)).phase
      then some (0, finish opt l.system.model l.out)
      else none

  -- `run`, after the server: its exit code and output, where it returns.
  unfoldable pub simulate :
      Schedule → Elfio → (ℕ → HartState) → Options → List ℕ → Result (Option (ℕ × Output))
  unfolding loop leave
  simulate schedule elfio new_hart opt input = do
    model ← set_up elfio new_hart opt
    looped ← loop schedule.rounds opt input (start_system model) no_output
    ok (leave schedule.at_exit opt looped)

-- The parts of a dump, in their order.
pub data DumpPart : Type 0 where
  header section_headers segment_headers symbol_tables notes : DumpPart
  modinfo dynamic_tags section_datas segment_datas : DumpPart

unfoldable pub dump : Elf → List (DumpPart × Elf)
dump reader =
    map (λ part. (part, reader))
      (header ∷ section_headers ∷ segment_headers ∷ symbol_tables ∷ notes ∷ modinfo ∷ dynamic_tags
        ∷ section_datas ∷ segment_datas ∷ [])

-- What a run gives: the dump of the file, or what the server has come to and the output of a
-- simulation.
pub data Ran : Type 0 where
  dumped : List (DumpPart × Elf) → Ran
  simulated : Served → Output → Ran

-- What `run` gives where the simulation returned.
abbrev pub ran_of : Served → Option (ℕ × Output) → Option (ℕ × Ran)
ran_of ended none = none
ran_of ended (some (code, out)) = some (code, simulated ended out)

module _ ⦃x : Externals⦄ where
  -- What follows the server; nothing while it runs.
  unfoldable pub after_server :
      Served → Schedule → Elfio → (ℕ → HartState) → Options → List ℕ → Result (Option (ℕ × Ran))
  unfolding simulate goes_on
  after_server ended schedule elfio new_hart opt input =
      let rest = simulate schedule elfio new_hart opt input >>= λ r. ok (ran_of ended r) in
      if goes_on ended then rest else ok none

  -- The whole of `run`, with its exit code where it returns. `enable_tcp` says that the build has the
  -- TCP server, `bound` what the socket library gives for a port, and `es` the events of the sockets
  -- and the signals up to now.
  unfoldable pub run_options :
      Bool
      → (ℕ → Option String)
      → List Event
      → Schedule
      → Elfio
      → (ℕ → HartState)
      → Options
      → List ℕ
      → Result (Option (ℕ × Ran))
  unfolding dump after_server serve
  run_options enable_tcp bound es schedule elfio new_hart opt input =
      let ended = serve (enable_tcp && opt.tcp_enabled) bound opt.port es in
      if opt.dump_exit
      then (open_elf elfio opt.target >>= λ prog. ok (some (0, dumped (dump prog))))
      else after_server ended schedule elfio new_hart opt input
