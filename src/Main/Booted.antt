-- ===== src/Main/Booted.antt =====
-- From the file to the value that the program (riscv32-sim/src/main.cpp) shows at its end, over the
-- reference hart.
use Prim.Native.String.{String}
use riscv32_sim.Base.{
  ℕ, ◌^◌, ◌<◌, ◌≡◌, sym, ap, ◌∙◌, subst, Bool, true, false, not, ◌&&◌, ◌||◌, List, [], ◌∷◌, ◌++◌,
  Option, none, some, ◌≤◌, ◌⊎◌, inl, inr, refl, arith, Returns, Returns-unique,
}
use riscv32_sim.Base.Word.{u32}
use riscv32_sim.Common.{Externals, IsDocumented, HartState}
use riscv32_sim.Ipc.Server
use riscv32_sim.Ipc.Server.{Event}
use riscv32_sim.Ipc.Serving.{AreAsio, any_signal}
use riscv32_sim.Iss.Manual.{Reaches, view}
use riscv32_sim.Iss.Manual.State.{Hart}
use riscv32_sim.Iss.Manual.Plain.{RunsPlain}
use riscv32_sim.Iss.Manual.Accesses.{number_at-bytes_of}
use riscv32_sim.Iss.Manual.Determined.{Reaches-unique}
use riscv32_sim.Iss.Manual.Halting.{Reaches-more, RunsPlain-more}
use riscv32_sim.Iss.Sound.{IsDecoder, IsSound}
use riscv32_sim.Iss.Sound.Starts.{IsProgram, set_up-IsSound}
use riscv32_sim.Iss.Start.{set_up, tohost}
use riscv32_sim.Iss.State.{Model}
use riscv32_sim.Loader.Image.{Elf, Elfio}
use riscv32_sim.Main.Arguments.{App, app, returned, main}
use riscv32_sim.Main.Loop.{Looped, Schedule, Ran, simulated, finish, leave, ran_of, run_options}
use riscv32_sim.Main.Loop.Laws.{leave-cases}
use riscv32_sim.Main.Loop.Runs.{length, IsLooped, loop-IsLooped}
use riscv32_sim.Main.Output.{Line, exited, Output, no_output}
use riscv32_sim.Main.Serve.{Served, serve}
use riscv32_sim.Main.Serve.Laws.{serves}
use riscv32_sim.Main.Whole.{main-runs}
use riscv32_sim.Memory.Bytes.{number_at}
use riscv32_sim.Memory.Router
use riscv32_sim.Memory.Router.{Router}
use riscv32_sim.Memory.Words.{read32-number_at}
use riscv32_sim.Mti.Interleaving.{start_system}
use riscv32_sim.Mti.Ticks.{woken_turns}
use riscv32_sim.Options.{Options}
use riscv32_sim.Main.Boot.{booted, set_up-booted, Reaches-tohost}

module _ ⦃x : Externals⦄ where
  -- What `main` shows last is the word at the address of the host.
  finish-shows :
      (opt : Options) (m : Model) (out : Output)
      → IsSound m
      → (finish opt m out).terminal
        ≡ out.terminal ++ exited opt.target (number_at (view m).bytes (view m).tohost 4) ∷ []
  unfolding finish tohost Router.read32
  finish-shows opt m out s =
      let word =
        read32-number_at m.mem.page m.tohost_addr s.mem_bytes.page_bytes s.tohost_fits
        ∙ number_at-bytes_of m.mem m.tohost_addr 4 s.tohost_fits in
      ap (λ (v : ℕ). out.terminal ++ exited opt.target v ∷ []) word

  -- `main` has returned 0 and has shown last what this hart has at the address of the host.
  pub record Shows (opt : Options) (tohost_addr : ℕ) (last : Hart) (r : Option (ℕ × Option Ran))
      : Type 0 where
    pub ended : Served
    pub out : Output
    pub before : List Line
    pub gives : r ≡ some (0, some (simulated ended out))
    pub shows :
        out.terminal ≡ before ++ exited opt.target (number_at last.bytes (u32 tohost_addr) 4) ∷ []

  -- `main` has returned, and this hart is the reference hart, started from the file, where it has
  -- halted.
  pub record IsExit (n : ℕ) (elfio : Elfio) (opt : Options) (e : Elf) (tohost_addr : ℕ)
      (r : Option (ℕ × Option Ran)) : Type 0 where
    pub last : Hart
    pub reaches : Reaches n (booted elfio opt e tohost_addr) last
    pub halted : last.halted ≡ true
    pub shown : Shows opt tohost_addr last r

  -- `main` has not returned: the hart had not halted before any round of the loop, or the thread
  -- has had few turns behind it.
  pub record IsGoing (schedule : Schedule) (start : Hart) (r : Option (ℕ × Option Ran))
      : Type 0 where
    pub gives : r ≡ none
    pub why :
        ((i : ℕ) (h : Hart) → i < length schedule.rounds → Reaches i start h → h.halted ≡ false)
        ⊎ (woken_turns schedule.at_exit < 3)

  abbrev pub IsOutcome : Schedule → Elfio → Options → Elf → ℕ → Option (ℕ × Option Ran) → Type 0
  IsOutcome schedule elfio opt e tohost_addr r =
      IsExit (length schedule.rounds) elfio opt e tohost_addr r
      ⊎ IsGoing schedule (booted elfio opt e tohost_addr) r

  returned-some :
      {ended : Served} {out : Output}
      → returned (ran_of ended (some (0, out))) ≡ some (0, some (simulated ended out))
  unfolding returned
  returned-some = refl

  returned-none : (ended : Served) → returned (ran_of ended none) ≡ none
  unfolding returned
  returned-none ended = refl

  -- The output behind a loop that followed the hart.
  Shows-last :
      (n : ℕ) (elfio : Elfio) (opt : Options) (e : Elf) (tohost_addr : ℕ) (ended : Served)
      → (l : Looped) → IsLooped n (booted elfio opt e tohost_addr) l
      → Shows opt tohost_addr
          (view l.system.model)
          (returned (ran_of ended (some (0, finish opt l.system.model l.out))))
  Shows-last n elfio opt e tohost_addr ended l k =
      let last = l.system.model in
      record {
        ended = ended;
        out = finish opt last l.out;
        before = l.out.terminal;
        gives = returned-some;
        shows =
            finish-shows opt last l.out k.sound
            ∙ ap
                (λ (a : ℕ).
                  l.out.terminal ++ exited opt.target (number_at (view last).bytes a 4) ∷ [])
                (Reaches-tohost k.reaches);
      }

  -- What `main` gives behind such a loop.
  outcome :
      (schedule : Schedule) (elfio : Elfio) (opt : Options) (e : Elf) (tohost_addr : ℕ)
      (ended : Served)
      → (l : Looped) → IsLooped (length schedule.rounds) (booted elfio opt e tohost_addr) l
      → IsOutcome schedule elfio opt e tohost_addr
          (returned (ran_of ended (leave schedule.at_exit opt l)))
  outcome schedule elfio opt e tohost_addr ended l k = elim (leave-cases schedule.at_exit opt l) [
    | inl (done, leaves) ↦ inl (
        rw leaves (record {
          last = view l.system.model;
          reaches = k.reaches;
          halted = k.halted done;
          shown = Shows-last (length schedule.rounds) elfio opt e tohost_addr ended l k;
        }))
    | inr (stays, inl on) ↦
        inr (rw stays (record { gives = returned-none ended; why = inl (k.going on) }))
    | inr (stays, inr few) ↦ inr (rw stays (record { gives = returned-none ended; why = inr few }))
  ]

module _ ⦃x : Externals⦄ (d : IsDocumented x) (k : IsDecoder x)
    (parse : App → List String → ℕ ⊎ Options) (enable_tcp : Bool) (argv : List String)
    (opt : Options) (bound : ℕ → Option String) (es : List Event) (elfio : Elfio) (e : Elf)
    (new_hart : ℕ → HartState) (input : List ℕ) (parses : parse (app enable_tcp) argv ≡ inr opt)
    (dump : opt.dump_exit ≡ false) (step : opt.fstep ≡ false) (mtime_fits : opt.mtime < 2 ^ 32)
    (mtimecmp_fits : opt.mtimecmp < 2 ^ 32) (asio : AreAsio es (Server.run (Server.server 5)))
    (ends : (not (serves (enable_tcp && opt.tcp_enabled) (bound opt.port)) || any_signal es) ≡ true)
    (p : IsProgram elfio opt e) (hart_pc : (v : ℕ) → x.pc_value (new_hart v).pc ≡ v) where
  -- With libraries as documented and a decoder of the instruction set, `main` on a command line
  -- that asks for no dump and no manual stepping, has timer addresses of 32 bits, and asks for no
  -- server that still serves after completions as the socket library documents them, with a file
  -- that is a program, whose loadable segments end where pages end, and a hart that starts at the
  -- entry point, does not fault, for any number of rounds of its loop and any turns of the timer
  -- thread before them and behind them. Either it has returned 0 and has shown last the word at
  -- the address of the host of the reference hart, which executes the instructions of the RISC-V
  -- manual and takes traps as the simulator does, started from the bytes of the file's segments
  -- and zeros elsewhere, after it has halted within as many instructions; or it has not returned,
  -- and then this hart had not halted before any of the rounds, or the timer thread has had fewer
  -- than three turns at which a wait is over since the loop. It is given that this hart, for as
  -- many instructions and as long as it has not halted, comes only to instructions of the program
  -- whose target has an enumerator and whose arithmetic C++ defines, to none that clears bits of a
  -- control register or sets none of them by csrrsi, to no byte access to a timer register, and to
  -- a return from a trap in machine mode only.
  pub main-IsExit :
      (schedule : Schedule)
      → RunsPlain (length schedule.rounds) (booted elfio opt e p.tohost_addr)
      → Returns (IsOutcome schedule elfio opt e p.tohost_addr) (
          main parse enable_tcp
            (λ o. run_options enable_tcp bound es schedule elfio new_hart o input)
            argv)
  unfolding start_system
  main-IsExit schedule plain =
      let start = booted elfio opt e p.tohost_addr in
      let n = length schedule.rounds in
      let started = set_up-IsSound d elfio opt e p new_hart hart_pc mtime_fits mtimecmp_fits in
      let m = started.value in
      let starts =
        Returns-unique (λ m. view m ≡ start) (set_up elfio new_hart opt) m started.returns
          (set_up-booted d elfio opt e p new_hart hart_pc) in
      let looped =
        loop-IsLooped d k schedule.rounds opt input (start_system m) no_output step started.holds
          (subst (RunsPlain n) (sym starts) plain) in
      let follows = subst (λ h. IsLooped n h looped.value) starts looped.holds in
      let ended = serve (enable_tcp && opt.tcp_enabled) bound opt.port es in
      record {
        value = returned (ran_of ended (leave schedule.at_exit opt looped.value));
        returns =
            main-runs elfio new_hart opt parse enable_tcp argv bound es schedule m looped.value
              input parses dump asio ends started.returns looped.returns;
        holds = outcome schedule elfio opt e p.tohost_addr ended looped.value follows;
      }

  -- With libraries as documented and a decoder of the instruction set, `main` ends when its
  -- program does: on a command line that asks for no dump and no manual stepping, has timer
  -- addresses of 32 bits, and asks for no server that still serves after completions as the socket
  -- library documents them, with a file that is a program, whose loadable segments end where pages
  -- end, and a hart that starts at the entry point, if the reference hart, which executes the
  -- instructions of the RISC-V manual and takes traps as the simulator does, started from the
  -- bytes of the file's segments and zeros elsewhere, has halted after some number of
  -- instructions, then for every schedule of the timer thread that has more rounds of the loop
  -- than this number, and behind the loop three turns at which a wait is over, `main` returns 0
  -- and shows last the word that the halted hart has at the address of the host, with the option
  -- `--timer` or without it. It is given that this hart before it halts comes only to instructions
  -- of the program whose target has an enumerator and whose arithmetic C++ defines, to none that
  -- clears bits of a control register or sets none of them by csrrsi, to no byte access to a timer
  -- register, and to a return from a trap in machine mode only.
  pub main-ends :
      (n : ℕ) (h : Hart)
      → RunsPlain n (booted elfio opt e p.tohost_addr)
      → Reaches n (booted elfio opt e p.tohost_addr) h
      → h.halted ≡ true
      → (schedule : Schedule) → n < length schedule.rounds
      → 3 ≤ woken_turns schedule.at_exit
      → Returns (Shows opt p.tohost_addr h) (
          main parse enable_tcp
            (λ o. run_options enable_tcp bound es schedule elfio new_hart o input)
            argv)
  main-ends n h plain r halted schedule lt joins =
      let start = booted elfio opt e p.tohost_addr in
      let rounds = length schedule.rounds in
      let ran = main-IsExit schedule (RunsPlain-more n rounds start h r halted plain) in
      record {
        value = ran.value;
        returns = ran.returns;
        holds = elim ran.holds [
          | inl done ↦
              let same : done.last ≡ h =
                Reaches-unique done.reaches (Reaches-more (omega arith) r halted) in
              subst (λ h. Shows opt p.tohost_addr h ran.value) same done.shown
          | inr going ↦ elim going.why [
            | inl live ↦ let no : h.halted ≡ false = live n h lt r in cc
            | inr few ↦ absurd (omega arith)
          ]
        ];
      }
