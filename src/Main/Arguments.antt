-- ===== src/Main/Arguments.antt =====
-- The command line that `main` declares (riscv32-sim/src/main.cpp) and what it does with it. The parser is
-- a library: the declarations are the data that it is given.
use Prim.Native.String.{String}
use riscv32_sim.Base.{
  ℕ, Bool, true, false, List, [], ◌∷◌, ◌++◌, Option, none, some, if◌then◌else◌, ◌⊎◌, inl, inr,
  Result, ok, ◌>>=◌,
}
use riscv32_sim.Options.{Options}

-- The member of `options` that an argument sets.
pub data Field : Type 0 where
  json_output disas_output fstep dump_exit tohost_sym mti_enabled : Field
  mtime mtimecmp interval tcp_enabled port target : Field

pub data Kind : Type 0 where
  option flag : Kind

pub record Argument : Type 0 where
  pub kind : Kind
  pub names : String
  pub field : Field
  pub help : String
  pub required : Bool
  pub existing_file : Bool
  pub take_first : Bool

-- A group takes part only with the flag that it needs; `require_option` is the number of its
-- arguments that must be given, where it says so.
pub record Group : Type 0 where
  pub name : String
  pub help : String
  pub needs : Field
  pub arguments : List Argument
  pub require_option : Option ℕ

pub record App : Type 0 where
  pub description : String
  pub arguments : List Argument
  pub groups : List Group

unfoldable pub add_option : String → Field → String → Argument
add_option names field help = record {
  kind = option;
  names = names;
  field = field;
  help = help;
  required = false;
  existing_file = false;
  take_first = false;
}

unfoldable pub add_flag : String → Field → String → Argument
unfolding add_option
add_flag names field help = record (add_option names field help) { kind = flag }

unfoldable pub group_mti : Group
unfolding add_option
group_mti = record {
  name = "timer";
  help = "Machine timer interrupts";
  needs = mti_enabled;
  arguments =
      add_option "--mtime" mtime "Memory-mapped 64-bit register incremented by timer"
      ∷ add_option "--mtimecmp" mtimecmp "Memory-mapped 64-bit register written by the simulator"
      ∷ add_option "--interval" interval "In microseconds"
      ∷ [];
  require_option = some 3;
}

unfoldable pub group_server : Group
unfolding add_option
group_server = record {
  name = "tcpserver";
  help = "Server";
  needs = tcp_enabled;
  arguments = record (add_option "-p,--port" port "Port") { required = true } ∷ [];
  require_option = none;
}

-- `option_defaults()->required()` comes after the other options and so reaches the target alone.
unfoldable pub target_argument : Argument
unfolding add_option
target_argument = record (add_option "target" target "Executable target") {
  required = true;
  existing_file = true;
  take_first = true;
}

-- The declarations, in a build with or without the TCP server.
unfoldable pub app : Bool → App
unfolding add_option add_flag group_mti group_server target_argument
app enable_tcp = record {
  description = "An easy-to-use, still-in-development RISC-V 32-bit simulator";
  arguments =
      add_option "-j,--json-output" json_output "JSON output filename"
      ∷ add_option "-d,--disas-output" disas_output "Disas trace output filename"
      ∷ add_flag "--step" fstep "Enable manual step"
      ∷ add_flag "--dump" dump_exit "Dump elf file then exit."
      ∷ add_option "--tohost" tohost_sym
          "Use a custom termination symbol defined in your linker script"
      ∷ add_flag "--timer" mti_enabled "Enable machine timer interrupts"
      ∷ ((if enable_tcp
            then add_flag "--tcpserver" tcp_enabled "Enable machine timer interrupts" ∷ []
            else [])
          ++ target_argument ∷ []);
  groups = group_mti ∷ (if enable_tcp then group_server ∷ [] else []);
}

-- `main`: the parser gives the options or, on a wrong command line or a question for help, the code
-- to exit with, which `main` returns without a run. A run that has not returned gives nothing.
unfoldable pub returned {ℓ} : {A : Type ℓ} → Option (ℕ × A) → Option (ℕ × Option A)
returned none = none
returned (some (code, out)) = some (code, some out)

unfoldable pub main_parsed {ℓ} :
    {A : Type ℓ}
    → (Options → Result (Option (ℕ × A)))
    → ℕ ⊎ Options
    → Result (Option (ℕ × Option A))
unfolding returned
main_parsed run (inl code) = ok (some (code, none))
main_parsed run (inr opt) = run opt >>= λ r. ok (returned r)

unfoldable pub main {ℓ} :
    {A : Type ℓ}
    → (App → List String → ℕ ⊎ Options)
    → Bool
    → (Options → Result (Option (ℕ × A)))
    → List String
    → Result (Option (ℕ × Option A))
unfolding main_parsed app
main parse enable_tcp run argv = main_parsed run (parse (app enable_tcp) argv)
