-- ===== src/Guest/Handlers.antt =====
-- The trap handlers of runtime/arch-test/trap_handler.c and runtime/basic/src/csr_exception.c.
use Prim.Native.String.{String}
use riscv32_sim.Base.{ℕ, ◌==◌, not, List, [], ◌∷◌, if◌then◌else◌}

-- What a handler ends with: the call of the execution environment, with the code in `a0` and the
-- number of the call in `a7`, or the return from the trap.
pub data Outcome : Type 0 where
  ecall : ℕ → ℕ → Outcome
  mret : Outcome

unfoldable pub illegal_trap_handler : Outcome
illegal_trap_handler = ecall 1 93

unfoldable pub breakpoint_handler : Outcome
breakpoint_handler = mret

unfoldable pub exit_trap_handler : Outcome
exit_trap_handler = mret

-- By the number in `mcause`.
unfoldable pub handle_ebreak : ℕ → Outcome
unfolding illegal_trap_handler exit_trap_handler
handle_ebreak mcause = if not (mcause == 3) then exit_trap_handler else illegal_trap_handler

unfoldable pub start_trap_handler : ℕ → Outcome
unfolding handle_ebreak illegal_trap_handler
start_trap_handler mcause = if not (mcause == 2) then handle_ebreak mcause else illegal_trap_handler

-- `handle_trap` of csr_exception.c only returns from the trap.
unfoldable pub handle_trap : Outcome
handle_trap = mret

-- An instruction on a control and status register: a read of a number, or a write of a value. The
-- address of `handle_trap` is what the program writes.
pub data CsrAccess : Type 0 where
  csrr : ℕ → CsrAccess
  csrrw : String → ℕ → CsrAccess

pub record Program : Type 0 where
  pub accesses : List CsrAccess
  pub result : ℕ

-- `main` of csr_exception.c; the last access is to be an illegal instruction.
unfoldable pub csr_exception : ℕ → Program
csr_exception address = record {
  accesses = csrr 0 ∷ csrrw "mtvec" address ∷ csrrw "mhartid" address ∷ [];
  result = 0;
}
