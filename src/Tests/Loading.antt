-- ===== src/Tests/Loading.antt =====
-- The theorems on the loader, the start of a program and the loop of `main` at a concrete file.
use riscv32_sim.Iss.State.{Model}
use riscv32_sim.Base.{
  ltb, List, Returns, undefined_behaviour, Result, err, ℕ, true, ◌≡◌, ◌↔◌, refl, arith, [], ◌∷◌,
  some, ok, if◌then◌else◌, ◌==◌,
}
use riscv32_sim.Common.{HartState}
use riscv32_sim.Iss.Exec.{fetch}
use riscv32_sim.Iss.Sound.Starts.{IsProgram}
use riscv32_sim.Iss.Start.{set_up, new_model}
use riscv32_sim.Loader.Image.{
  Segment, Elf, Elfio, open_elf, load_elf, load_segments, load_segment, write_router, symbol, entry,
}
use riscv32_sim.Loader.Segments.{
  IsSupported, open_elf-IsSupported, IsPlaced, Holds, image, load_segments-Holds,
}
use riscv32_sim.Mti.{Turn}
use riscv32_sim.Options.{Options}
use riscv32_sim.Memory.Accessor
use riscv32_sim.Memory.Blocks
use riscv32_sim.Memory.Router
use riscv32_sim.Tests.Libraries.{libraries, libraries-IsDocumented, addi}
use riscv32_sim.Tests.Machine.{hart, blank, options, ready}

-- addi x1, x0, 5, and zeros to the end of the page
abbrev code : Segment
code = record {
  get_type = 1;
  get_virtual_address = 0x1000;
  get_file_size = 4096;
  get_data = λ i. if i == 0 then 0x93 else if i == 2 then 0x50 else 0;
}

abbrev pub file : Elf
file = record {
  get_class = 1;
  get_machine = 243;
  get_entry = 0x1000;
  segments = code ∷ [];
  sections = record { get_type = 1; get_flags = 6; get_address = 0x1000; get_size = 4 } ∷ [];
  get_symbol = λ name. some 0x3000;
}

abbrev pub elfio : Elfio
elfio = record {
  load = λ name. some file;
  elfclass32 = 1;
  em_riscv = 243;
  pt_load = 1;
  sht_progbits = 1;
  shf_execinstr = 4;
}

open_elf-IsSupported_example :
    (open_elf elfio "a.elf" ≡ ok file) ↔ ((elfio.load "a.elf" ≡ some file) × IsSupported elfio file)
open_elf-IsSupported_example = open_elf-IsSupported elfio "a.elf" file

code-IsPlaced : IsPlaced elfio (code ∷ [])
code-IsPlaced = (λ e. (omega arith, omega arith, λ h. omega arith), tt)

load_segments-Holds_example :
    Returns
      (Holds blank (image elfio (code ∷ []) (λ c. Accessor.read8 blank.page c)))
      (load_segments elfio blank (code ∷ []))
load_segments-Holds_example =
    load_segments-Holds elfio libraries-IsDocumented blank (code ∷ []) code-IsPlaced

-- Ones behind the data of the segment.
abbrev followed : ℕ → ℕ
followed i = if ltb i 4096 then code.get_data i else 1

-- A segment that ends within a page is read behind its end.
short_segment :
    load_segments elfio blank (record code { get_file_size = 4 } ∷ []) ≡ err undefined_behaviour
unfolding load_segments
short_segment = refl

pub program : IsProgram elfio options file
program = record {
  readable = refl;
  supported = (refl, refl, λ e. cc);
  placed = code-IsPlaced;
  bytes = (λ i lt. ground arith, tt);
  tohost_addr = 0x3000;
  tohost_found = refl;
}

abbrev pub new_hart : ℕ → HartState
new_hart v = record (hart addi) { pc = record { pc = v; pc_next = v } }

-- The model that is set up, which is about to run the instruction of the file.
abbrev pub value_of : Result Model → Model
value_of (ok m) = m
value_of (err fault) = ready

abbrev pub set : Model
set = value_of (set_up elfio new_hart options)

pub set_up_returns : set_up elfio new_hart options ≡ ok set
unfolding set_up load_elf open_elf new_model symbol
set_up_returns = refl

pub fetched : (fetch set).cur_state.dec ≡ addi
unfolding set_up load_elf open_elf new_model symbol fetch Router.read32 Accessor.read32
    Accessor.read16 Accessor.read8 load_segments load_segment write_router Blocks.write entry
    Blocks.write_page Router.init
fetched = refl

-- The options with a JSON output.
abbrev exporting : Options
exporting = record options { json_output = "run.json" }

-- One turn of the timer thread before the second of two rounds.
abbrev rounds : List (List Turn)
rounds = [] ∷ (record { pending_interrupt = 0; woken = true } ∷ []) ∷ []
