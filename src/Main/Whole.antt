-- ===== src/Main/Whole.antt =====
-- The whole program (riscv32-sim/src/main.cpp): from the command line over the server, the file and
-- the loop to what it writes.
use Prim.Native.String.{String}
use riscv32_sim.Base.{
  ℕ, ◌≡◌, refl, ◌∙◌, Bool, true, false, not, ◌&&◌, ◌||◌, List, Option, none, ok, ◌⊎◌, inr,
}
use riscv32_sim.Common.{Externals, HartState}
use riscv32_sim.Ipc.Server
use riscv32_sim.Ipc.Server.{Event}
use riscv32_sim.Ipc.Serving.{AreAsio, any_signal}
use riscv32_sim.Iss.Start.{set_up}
use riscv32_sim.Iss.State.{Model}
use riscv32_sim.Loader.Image.{Elfio}
use riscv32_sim.Main.Arguments.{App, app, returned, main_parsed, main}
use riscv32_sim.Main.Loop.{
  Looped, Schedule, loop, leave, simulate, ran_of, after_server, run_options,
}
use riscv32_sim.Main.Output.{no_output}
use riscv32_sim.Main.Serve.{serve, goes_on}
use riscv32_sim.Main.Serve.Laws.{serves, goes_on-serve}
use riscv32_sim.Mti.Interleaving.{start_system}
use riscv32_sim.Options.{Options}

module _ ⦃x : Externals⦄ (elfio : Elfio) (new_hart : ℕ → HartState) (opt : Options) where
  -- `main` where the server lets it go on and the loop does not fault.
  pub main-runs :
      (parse : App → List String → ℕ ⊎ Options) (enable_tcp : Bool) (argv : List String)
      → (bound : ℕ → Option String) (es : List Event)
      → (schedule : Schedule) (start : Model) (looped : Looped) (input : List ℕ)
      → parse (app enable_tcp) argv ≡ inr opt
      → opt.dump_exit ≡ false
      → AreAsio es (Server.run (Server.server 5))
      → (not (serves (enable_tcp && opt.tcp_enabled) (bound opt.port)) || any_signal es) ≡ true
      → set_up elfio new_hart opt ≡ ok start
      → loop schedule.rounds opt input (start_system start) no_output ≡ ok looped
      → main parse enable_tcp
          (λ o. run_options enable_tcp bound es schedule elfio new_hart o input)
          argv
        ≡ ok (
            returned (
              ran_of
                (serve (enable_tcp && opt.tcp_enabled) bound opt.port es)
                (leave schedule.at_exit opt looped)))
  unfolding main main_parsed run_options after_server simulate
  main-runs parse enable_tcp argv bound es schedule start looped input parses dump asio ends starts
        runs =
      let asked = enable_tcp && opt.tcp_enabled in
      let on : goes_on (serve asked bound opt.port es) ≡ true =
        goes_on-serve asked bound opt.port es asio ∙ ends in
      simp (parses, dump, on, starts, runs) refl

module _ ⦃x : Externals⦄ where
  -- With completions that the socket library documents, `main` of a build with the TCP server, on
  -- a command line that asks for it and for no dump, with a port that can be bound, has not
  -- returned and has simulated nothing as long as no signal came, whatever the file, the options
  -- and the connections are.
  pub main-waits :
      (parse : App → List String → ℕ ⊎ Options) (argv : List String) (opt : Options)
      → (bound : ℕ → Option String) (es : List Event)
      → (schedule : Schedule) (elfio : Elfio) (new_hart : ℕ → HartState) (input : List ℕ)
      → parse (app true) argv ≡ inr opt
      → opt.dump_exit ≡ false
      → opt.tcp_enabled ≡ true
      → bound opt.port ≡ none
      → AreAsio es (Server.run (Server.server 5))
      → any_signal es ≡ false
      → main parse true (λ o. run_options true bound es schedule elfio new_hart o input) argv
        ≡ ok none
  unfolding main main_parsed run_options after_server returned
  main-waits parse argv opt bound es schedule elfio new_hart input parses dump tcp binds asio
        quiet =
      let off : goes_on (serve true bound opt.port es) ≡ false =
        goes_on-serve true bound opt.port es asio ∙ rw (binds, quiet) in
      simp (parses, dump, tcp, off) refl
