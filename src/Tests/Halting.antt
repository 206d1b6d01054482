-- ===== src/Tests/Halting.antt =====
-- The loop of `main` at a machine that is about to end its program by a call.
use riscv32_sim.Base.{ℕ, ◌≡◌, refl, sym, subst, ap, ◌∙◌, arith, true, ok, ◌↔◌, ◌==◌, if◌then◌else◌}
use riscv32_sim.Common.{Op, OpType}
use riscv32_sim.Iss.Exec.{is_address_initialized, run}
use riscv32_sim.Iss.Manual.{Executes, Reaches, view}
use riscv32_sim.Iss.Manual.{fetched as fetched_op}
use riscv32_sim.Iss.Manual.Halting.{RunsPlain-suc, RunsPlain-halted, RunsPlain-more, run-halts}
use riscv32_sim.Iss.Manual.Plain.{IsPlain, RunsPlain}
use riscv32_sim.Iss.Manual.State.{Hart}
use riscv32_sim.Iss.Manual.Traps.{Exception, Raises, trapped, settled}
use riscv32_sim.Iss.Sound.{IsSound}
use riscv32_sim.Iss.Sound.Writes.{write32-IsMemory}
use riscv32_sim.Iss.State.{Model}
use riscv32_sim.Memory.Accessor
use riscv32_sim.Memory.Bytes.{number_at}
use riscv32_sim.Memory.Router
use riscv32_sim.Tests.Libraries.{
  libraries, libraries-IsDocumented, libraries-IsDecoder, environment_call,
}
use riscv32_sim.Tests.Machine.{blank, blank-IsMemory, ready, ready-IsSound}

-- 93 in a7 and 7 in a0, and `ecall` at the program counter.
abbrev ending : Model
ending = record ready {
  mem = Router.write32 blank 0x1000 0x00000073;
  regf = λ i. if i == 17 then 93 else if i == 10 then 7 else 0;
}

ending-IsSound : IsSound ending
ending-IsSound = record {
  mode_set = ready-IsSound.mode_set;
  csr_fits = ready-IsSound.csr_fits;
  pc_fits = omega arith;
  tohost_fits = omega arith;
  mtime_fits = omega arith;
  mtimecmp_fits = omega arith;
  gpr_fits = λ i. ground arith;
  x0 = refl;
  mem_bytes =
      write32-IsMemory libraries-IsDocumented blank 0x1000 0x00000073 (omega arith) blank-IsMemory;
}

ending_fetched : fetched_op (view ending) ≡ environment_call
unfolding number_at Accessor.read8 Router.write32 Accessor.write32 Accessor.write16 Accessor.write8
ending_fetched = refl

ending_valid : is_address_initialized (view ending).platform.code (view ending).pc ≡ true
unfolding is_address_initialized
ending_valid = refl

-- A call is no instruction with arithmetic or an access.
pub call-IsPlain :
    (h : Hart)
    → is_address_initialized h.platform.code h.pc ≡ true
    → fetched_op h ≡ environment_call
    → IsPlain h
call-IsPlain h valid e = record {
  valid = valid;
  named = rw e tt;
  permitted = rw e (λ t. cc, λ t. cc);
  result =
      λ b f. let wrong : OpType.monostate ≡ OpType.alu b = ap (λ (o : Op). o.opt) (sym e) ∙ f in cc;
  away = (
    λ l f. let wrong : OpType.monostate ≡ OpType.load l = ap (λ (o : Op). o.opt) (sym e) ∙ f in cc,
    λ s f. let wrong : OpType.monostate ≡ OpType.store s = ap (λ (o : Op). o.opt) (sym e) ∙ f in cc,
  );
}

abbrev ended : Hart
ended = trapped Exception.call (view ending)

ending-Executes : Executes (fetched_op (view ending)) (view ending) ended
ending-Executes =
    subst (λ o. Executes o (view ending) ended) (sym ending_fetched)
      (Executes.traps Exception.call (Raises.is_call refl))

ended_halted : (settled ended).halted ≡ true
ended_halted = ground arith

ending-RunsPlain : (n : ℕ) → RunsPlain n (view ending)
ending-RunsPlain n =
    RunsPlain-more 1 n (view ending) (settled ended)
      (Reaches.goes refl ending-Executes Reaches.spent) ended_halted
      (RunsPlain-suc 0 (view ending) ended (call-IsPlain (view ending) ending_valid ending_fetched)
        ending-Executes (RunsPlain-halted 0 (settled ended) ended_halted))

run-halts_example :
    ((fuel : ℕ) × (m' : Model) × (run fuel ending ≡ ok m') × (m'.is_done ≡ true))
    ↔ ((n : ℕ) × (h : Hart) × Reaches n (view ending) h × (h.halted ≡ true))
run-halts_example =
    run-halts libraries-IsDocumented libraries-IsDecoder ending ending-IsSound ending-RunsPlain
