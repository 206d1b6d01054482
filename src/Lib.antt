-- ===== src/Lib.antt =====
-- riscv32-sim simulates one RISC-V hart (RV32IM with Zicsr and compressed instructions). A run
-- loads an ELF file into a sparse memory and repeats two calls of the model: `step` fetches and
-- executes one instruction and stages the next program counter and the changes of registers, and
-- `commit` makes the program counter current, looks for a timer interrupt and drops the staged
-- changes. Traps write the registers of the current privilege level and stage the handler.
--
-- The files, and the code that each models:
-- - Base: numbers, words of 32 bits and their signed reading, bitsets, and the results of fallible
--   code, in which an exception, a failed assertion or undefined behaviour is a fault.
-- - Common: the types and functions of the submodules riscv32-sim-common and riscv32-decoder. The
--   functions are the parameter `Externals`; `IsDocumented` and, for the decoder, `IsDecoder` of
--   Iss/Sound say what the simulator relies on.
-- - Memory: riscv32-sim/include/memory/sparse_memory.hpp and riscv32-sim/src/memory/
--   sparse_memory.cpp. Accessor has the pages, Base the base class, Blocks the block write, and
--   Router the timer's registers in front of the pages; Bytes and Words read the memory as a map of
--   bytes, and Maps forgets the pages.
-- - Zicsr: riscv32-sim/include/zicsr/csr.hpp (Csr), csr_file.hpp (Mode, CsrFile, and Status for the
--   positions in mstatus) and misa.hpp (Misa).
-- - RegFile, TrapCause, Options: riscv32-sim/src/reg_file.cpp, riscv32-sim/include/trap_cause.hpp
--   and riscv32-sim/include/options.hpp.
-- - Iss: riscv32-sim/src/iss/model.cpp, riscv32-sim/include/iss/model.hpp and arith.hpp. Arith, Alu,
--   Branch, LoadStore, CsrInstr, Trap and Exec have the functions of these names or the handlers;
--   State has the class `model`, whose calls that change it take and return a `Model`. Sound is the
--   invariant of the state, Manual a reference hart on a flat map of bytes, which executes the
--   instructions of the RISC-V manual and takes traps as the simulator does (in Manual, Traps has
--   them, Plain the instructions that are compared, and Halting the runs that end), and Faults what
--   ends a run. `run` in Exec is the loop of
--   riscv32-sim/src/main.cpp without its output, and Start the constructor and the set-up before the
--   loop.
-- - Loader: riscv32-sim/src/loader.cpp. Image has the constructors, `symbol` and `entry`, Segments and
--   Buffers what they accept, read and leave in the memory; the reader of ELFIO is the parameter `Elfio`.
-- - Main: riscv32-sim/src/main.cpp. Loop has `run`, Signals and Arguments what is before it, Serve
--   the branch for the TCP server, Output what a run writes, and Whole goes from the command line
--   to the end, and Boot and Booted from the file to what is shown. The loop takes a schedule, the
--   turns of the timer thread before each of its rounds and behind it; when the schedule is used
--   up, the loop has not ended and `main` has not returned.
-- - Mti: riscv32-sim/src/mti_source.cpp. The thread is a machine whose turns each make one access of
--   shared state; Interleaving runs it beside the instructions, and the loop in Main does so too.
-- - Ipc: riscv32-sim/src/ipc.cpp and riscv32-sim/include/ipc.hpp. Session and Server have the classes,
--   whose pending operations are state and whose completions are events.
-- - Json: riscv32-sim/include/util/json_export_helpers.hpp.
-- - Guest: the programs of runtime/basic and runtime/arch-test/trap_handler.c. Clock and Timer have
--   timer.c, Stdint the widths, Programs the others with their start, and Handlers the traps.
-- - Format: the texts of riscv32-sim/include/util/format_helpers.hpp.
-- - Benchmark: riscv32-sim/benchmark/alu.cpp and alu_static_variadic.hpp.
-- - Tests: a concrete machine, and the theorems at it.
--
-- The files of registers are functions on indices, of which the code reaches the first 32 and
-- 4096; an access outside is a fault. A page is a function on offsets. Numbers of a fixed width are
-- natural numbers, with the wrap-around written out. The block write takes its size as fuel, as
-- each round writes a byte at least. `run` takes the number of instructions as its
-- fuel: a guest program need not end, so the theorem on it holds for any number. The type `Overflow`
-- tells whether the compiler gives a signed overflow a meaning.
--
-- A block write copies whole pages. The data of a segment has the size of the segment, so that a
-- copy behind its end is undefined behaviour, and loading such a segment is a fault.
--
-- The loops of the guest programs take fuel as well. Their clock code is written for an unsigned
-- long of 64 bits and is built for one of 32, at which its shifts are faults; the width is an
-- argument.
--
-- Not modelled: what ELFIO, CLI11, fmt, spdlog, nlohmann::json and boost::asio do behind the calls
-- that the code makes of them: these are parameters or events, and texts are values; nor
-- external/riscv-disas, which is another project's. A compiled guest program is not derived from its
-- C code.
pub mod Base
pub mod Common
pub mod Memory
pub mod Zicsr
pub mod TrapCause
pub mod Options
pub mod RegFile
pub mod Iss
pub mod Benchmark
pub mod Format
pub mod Guest
pub mod Ipc
pub mod Json
pub mod Loader
pub mod Main
pub mod Mti
pub mod Tests
