-- ===== src/Tests/Programs.antt =====
-- The theorems on the loader and the benchmark at concrete inputs.
use riscv32_sim.Base.{◌≡◌, ◌↔◌, arith, true, [], ◌∷◌}
use riscv32_sim.Benchmark.Agreement.{do_alu_static-do_alu}
use riscv32_sim.Benchmark.Operations.{do_alu_dynamic}
use riscv32_sim.Benchmark.Switch.{do_alu_static}
use riscv32_sim.Common.{Alu}
use riscv32_sim.Iss.Alu.{do_alu}
use riscv32_sim.Iss.Exec.{is_address_initialized}
use riscv32_sim.Loader.{Section, progbit_ranges, IsCodeAt, is_address_initialized-progbit_ranges}
use riscv32_sim.Tests.Libraries.{libraries}

do_alu_static-do_alu_example :
    (do_alu_static Alu.sub 5 7 ≡ do_alu Alu.sub 5 7)
    × (do_alu_dynamic Alu.sub 5 7 ≡ do_alu Alu.sub 5 7)
do_alu_static-do_alu_example = do_alu_static-do_alu Alu.sub 5 7 (λ n. ground arith)

abbrev text : Section
text = record { get_type = 1; get_flags = 6; get_address = 0x1000; get_size = 0x20 }

abbrev bss : Section
bss = record { get_type = 8; get_flags = 3; get_address = 0x2000; get_size = 0x10 }

is_address_initialized-progbit_ranges_example :
    (is_address_initialized (progbit_ranges 1 4 (bss ∷ text ∷ [])) 0x101F ≡ true)
    ↔ IsCodeAt 1 4 (bss ∷ text ∷ []) 0x101F
is_address_initialized-progbit_ranges_example =
    is_address_initialized-progbit_ranges 1 4 (bss ∷ text ∷ []) 0x101F
      (omega arith, (omega arith, tt))
