-- ===== src/Tests/Whole.antt =====
-- The theorems on the whole program at a concrete command line.
use Prim.Native.String.{String}
use riscv32_sim.Base.{
  ℕ, ◌≡◌, refl, arith, true, false, List, [], ◌∷◌, ◌⊎◌, inr, Option, none, ok, Returns,
}
use riscv32_sim.Ipc.Server
use riscv32_sim.Ipc.Server.{Event, accepted}
use riscv32_sim.Ipc.Serving.{AreAsio}
use riscv32_sim.Main.Arguments.{App, main}
use riscv32_sim.Main.Loop.{Schedule, run_options}
use riscv32_sim.Main.Whole.{main-waits}
use riscv32_sim.Iss.Exec.{is_address_initialized}
use riscv32_sim.Iss.Manual.State.{Hart}
use riscv32_sim.Iss.Manual.Plain.{RunsPlain}
use riscv32_sim.Iss.Manual.{fetched as fetched_op}
use riscv32_sim.Tests.Runs.{addi-RunsPlain}
use riscv32_sim.Loader.{progbit_ranges}
use riscv32_sim.Memory.Bytes.{number_at}
use riscv32_sim.Loader.Segments.{image, overlay}
use riscv32_sim.Main.Boot.{booted}
use riscv32_sim.Main.Booted.{IsOutcome, main-IsExit}
use riscv32_sim.Options.{Options}
use riscv32_sim.Tests.Loading.{elfio, file, new_hart, program}
use riscv32_sim.Tests.Libraries.{addi, libraries, libraries-IsDocumented, libraries-IsDecoder}
use riscv32_sim.Tests.Machine.{options}

abbrev pub parsed : Options → App → List String → ℕ ⊎ Options
parsed opt app argv = inr opt

abbrev pub free : ℕ → Option String
free port = none

abbrev one_round : Schedule
one_round = record { rounds = [] ∷ []; at_exit = [] }

abbrev serving : Options
serving = record options { port = 8080; tcp_enabled = true }

abbrev connection : List Event
connection = accepted false ∷ []

connection-AreAsio : AreAsio connection (Server.run (Server.server 5))
connection-AreAsio = (tt, tt)

main-waits_example :
    main
      (parsed serving)
      true
      (λ o. run_options true free connection one_round elfio new_hart o [])
      []
    ≡ ok none
main-waits_example =
    main-waits (parsed serving) [] serving free connection one_round elfio new_hart [] refl refl
      refl refl connection-AreAsio refl

abbrev at_start : ℕ → Hart
at_start a = booted elfio options file a

start_valid : (a : ℕ) → is_address_initialized (at_start a).platform.code (at_start a).pc ≡ true
unfolding progbit_ranges is_address_initialized
start_valid a = refl

start_fetched : (a : ℕ) → fetched_op (at_start a) ≡ addi
unfolding number_at image overlay
start_fetched a = refl

start-RunsPlain : (a : ℕ) → RunsPlain 1 (at_start a)
start-RunsPlain a = addi-RunsPlain (at_start a) (start_valid a) (start_fetched a)

main-IsExit_example :
    Returns
      (IsOutcome one_round elfio options file program.tohost_addr)
      (main (parsed options) true (λ o. run_options true free [] one_round elfio new_hart o []) [])
main-IsExit_example =
    main-IsExit libraries-IsDocumented libraries-IsDecoder (parsed options) true [] options free []
      elfio file new_hart [] refl refl refl (omega arith) (omega arith) tt refl program (λ v. refl)
      one_round (start-RunsPlain program.tohost_addr)
