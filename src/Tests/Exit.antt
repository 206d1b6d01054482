-- ===== src/Tests/Exit.antt =====
-- A program that ends by a call with the value 7, from its file to what `main` shows.
use riscv32_sim.Base.{
  ℕ, ◌≡◌, refl, sym, subst, arith, true, [], ◌∷◌, some, ◌==◌, if◌then◌else◌, Returns,
}
use riscv32_sim.Common.{Alu}
use riscv32_sim.Iss.Alu.Spec.{alu_result}
use riscv32_sim.Iss.Exec.{is_address_initialized}
use riscv32_sim.Iss.Manual.{Executes, Reaches}
use riscv32_sim.Iss.Manual.{fetched as fetched_op}
use riscv32_sim.Iss.Manual.Halting.{RunsPlain-suc, RunsPlain-halted}
use riscv32_sim.Iss.Manual.Plain.{RunsPlain}
use riscv32_sim.Iss.Manual.State.{Hart, go_to, with_reg}
use riscv32_sim.Iss.Manual.Traps.{Exception, Raises, trapped, settled}
use riscv32_sim.Iss.Sound.Starts.{IsProgram}
use riscv32_sim.Loader.{progbit_ranges}
use riscv32_sim.Loader.Image.{Segment, Elf, Elfio}
use riscv32_sim.Loader.Segments.{image, overlay}
use riscv32_sim.Main.Arguments.{main}
use riscv32_sim.Main.Boot.{booted}
use riscv32_sim.Main.Booted.{Shows, main-ends}
use riscv32_sim.Main.Loop.{Schedule, run_options}
use riscv32_sim.Mti.{Turn}
use riscv32_sim.Options.{Options}
use riscv32_sim.Memory.Bytes.{number_at, stored, byte_of}
use riscv32_sim.Tests.Loading.{elfio, file, new_hart}
use riscv32_sim.Tests.Libraries.{
  libraries, libraries-IsDocumented, libraries-IsDecoder, load_immediate, environment_call,
}
use riscv32_sim.Tests.Machine.{options}
use riscv32_sim.Tests.Halting.{call-IsPlain}
use riscv32_sim.Tests.Runs.{addition-IsPlain}
use riscv32_sim.Tests.Whole.{parsed, free}

-- addi x10, x0, 7; addi x17, x0, 93; ecall; and zeros to the end of the page
abbrev code : Segment
code = record {
  get_type = 1;
  get_virtual_address = 0x1000;
  get_file_size = 4096;
  get_data = λ i.
      if i == 0
      then 0x13
      else if i == 1
      then 0x05
      else if i == 2
      then 0x70
      else if i == 4
      then 0x93
      else if i == 5
      then 0x08
      else if i == 6
      then 0xD0
      else if i == 7
      then 0x05
      else if i == 8
      then 0x73
      else 0;
}

abbrev exit_file : Elf
exit_file = record file {
  segments = code ∷ [];
  sections = record { get_type = 1; get_flags = 6; get_address = 0x1000; get_size = 12 } ∷ [];
}

abbrev exit_elfio : Elfio
exit_elfio = record elfio { load = λ name. some exit_file }

-- The options with `--timer`.
abbrev timed : Options
timed = record options { mti_enabled = true }

exit_program : IsProgram exit_elfio timed exit_file
exit_program = record {
  readable = refl;
  supported = (refl, refl, λ e. cc);
  placed = (λ e. (omega arith, omega arith, λ h. omega arith), tt);
  bytes = (λ i lt. ground arith, tt);
  tohost_addr = 0x3000;
  tohost_found = refl;
}

-- The hart before each instruction, and behind the last.
abbrev start : ℕ → Hart
start a = booted exit_elfio timed exit_file a

abbrev second : ℕ → Hart
second a = go_to (with_reg (start a) 10 7) 0x1004

abbrev third : ℕ → Hart
third a = go_to (with_reg (second a) 17 93) 0x1008

abbrev last : ℕ → Hart
last a = settled (trapped Exception.call (third a))

module _ (a : ℕ) where
  start_fetched : fetched_op (start a) ≡ load_immediate 10 7
  unfolding number_at image overlay
  start_fetched = refl

  second_fetched : fetched_op (second a) ≡ load_immediate 17 93
  unfolding number_at image overlay
  second_fetched = refl

  third_fetched : fetched_op (third a) ≡ environment_call
  unfolding number_at image overlay
  third_fetched = refl

  -- No interrupt comes.
  settled-second : settled (second a) ≡ second a
  unfolding number_at image overlay
  settled-second = refl

  settled-third : settled (third a) ≡ third a
  unfolding number_at image overlay
  settled-third = refl

  start_valid : is_address_initialized (start a).platform.code 0x1000 ≡ true
  unfolding progbit_ranges is_address_initialized
  start_valid = refl

  second_valid : is_address_initialized (start a).platform.code 0x1004 ≡ true
  unfolding progbit_ranges is_address_initialized
  second_valid = refl

  third_valid : is_address_initialized (start a).platform.code 0x1008 ≡ true
  unfolding progbit_ranges is_address_initialized
  third_valid = refl

  start-Executes : Executes (fetched_op (start a)) (start a) (second a)
  unfolding alu_result
  start-Executes =
      subst (λ o. Executes o (start a) (second a)) (sym start_fetched)
        (Executes.computes Alu.add refl refl (λ e. cc) (λ e. cc))

  second-Executes : Executes (fetched_op (second a)) (second a) (third a)
  unfolding alu_result
  second-Executes =
      subst (λ o. Executes o (second a) (third a)) (sym second_fetched)
        (Executes.computes Alu.add refl refl (λ e. cc) (λ e. cc))

  third-Executes : Executes (fetched_op (third a)) (third a) (trapped Exception.call (third a))
  third-Executes =
      subst (λ o. Executes o (third a) (trapped Exception.call (third a))) (sym third_fetched)
        (Executes.traps Exception.call (Raises.is_call refl))

  last_halted : (last a).halted ≡ true
  last_halted = ground arith

  runs : RunsPlain 3 (start a)
  runs =
      let at_third =
        RunsPlain-suc 0 (third a) _ (call-IsPlain (third a) third_valid third_fetched)
          third-Executes (RunsPlain-halted 0 (last a) last_halted) in
      let at_second =
        RunsPlain-suc 1 (second a) (third a)
          (addition-IsPlain (second a) _ _ second_valid second_fetched) second-Executes
          (subst (RunsPlain 1) (sym settled-third) at_third) in
      RunsPlain-suc 2 (start a) (second a)
        (addition-IsPlain (start a) _ _ start_valid start_fetched) start-Executes
        (subst (RunsPlain 2) (sym settled-second) at_second)

  reaches : Reaches 3 (start a) (last a)
  reaches =
      let at_third = Reaches.goes refl third-Executes Reaches.spent in
      let at_second =
        Reaches.goes refl second-Executes
          (subst (λ h. Reaches 1 h (last a)) (sym settled-third) at_third) in
      Reaches.goes refl start-Executes
        (subst (λ h. Reaches 2 h (last a)) (sym settled-second) at_second)

-- The timer thread makes a turn before the second round, and ends behind the loop.
abbrev turn : Turn
turn = record { pending_interrupt = 0; woken = true }

abbrev schedule : Schedule
schedule = record {
  rounds = [] ∷ (turn ∷ []) ∷ [] ∷ [] ∷ [] ∷ [];
  at_exit = turn ∷ turn ∷ turn ∷ [];
}

main-ends_example :
    Returns (Shows timed exit_program.tohost_addr (last exit_program.tohost_addr)) (
      main (parsed timed) true (λ o. run_options true free [] schedule exit_elfio new_hart o []) [])
main-ends_example =
    main-ends libraries-IsDocumented libraries-IsDecoder (parsed timed) true [] timed free []
      exit_elfio exit_file new_hart [] refl refl refl (omega arith) (omega arith) tt refl
      exit_program (λ v. refl) 3 (last exit_program.tohost_addr) (runs exit_program.tohost_addr)
      (reaches exit_program.tohost_addr) (last_halted exit_program.tohost_addr) schedule
      (omega arith) (omega arith)

-- What is shown.
shows_seven : number_at (last 0x3000).bytes 0x3000 4 ≡ 7
unfolding number_at image overlay stored byte_of
shows_seven = refl
