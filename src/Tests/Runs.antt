-- ===== src/Tests/Runs.antt =====
-- The theorems on the instruction cycle at a concrete machine, which runs `addi x1, x0, 5`.
use riscv32_sim.Base.{ℕ, zero, suc, arith, true, ◌≡◌, refl, false, Returns, ap, ◌∙◌, sym}
use riscv32_sim.Common.{Op, OpType, Alu, Overflow}
use riscv32_sim.Iss.Alu.Spec.{is_undefined}
use riscv32_sim.Iss.Exec.{fetch, step, commit, run, is_address_initialized}
use riscv32_sim.Iss.Manual.{Reaches, view}
use riscv32_sim.Iss.Manual.State.{Hart}
use riscv32_sim.Iss.Manual.Plain.{RunsPlain, IsPlain}
use riscv32_sim.Iss.Manual.{fetched as fetched_op}
use riscv32_sim.Iss.Manual.Runs.{run-Reaches}
use riscv32_sim.Iss.Sound.{IsSound, IsStaged}
use riscv32_sim.Iss.Sound.Commits.{commit-IsSound, IsRun, run-IsSound}
use riscv32_sim.Iss.Sound.Handlers.{IsDefined}
use riscv32_sim.Iss.Sound.Steps.{decoded, step-IsStaged}
use riscv32_sim.Memory.Accessor
use riscv32_sim.Memory.Router
use riscv32_sim.Memory.Bytes.{number_at}
use riscv32_sim.Tests.Libraries.{
  addi, load_immediate, libraries, libraries-IsDocumented, libraries-IsDecoder,
}
use riscv32_sim.Tests.Machine.{ready, ready-IsSound, ready-IsStaged}

fetched : (fetch ready).cur_state.dec ≡ addi
unfolding fetch Router.read32 Router.write32 Accessor.read32 Accessor.read16 Accessor.read8
    Accessor.write32 Accessor.write16 Accessor.write8
fetched = refl

pub addition-defined :
    (a : Alu) (b c : ℕ)
    → OpType.alu Alu.add ≡ OpType.alu a
    → is_undefined Overflow.undefined a b c ≡ false
unfolding is_undefined
addition-defined a b c e = let named : Alu.add ≡ a = cc in rw⁻¹ named refl

pub ready-IsDefined : IsDefined (decoded ready)
ready-IsDefined a e = addition-defined a _ _ (ap (λ (o : Op). o.opt) (sym fetched) ∙ e)

step-IsStaged_example : Returns IsStaged (step ready)
step-IsStaged_example =
    step-IsStaged libraries-IsDocumented libraries-IsDecoder ready ready-IsSound ready-IsDefined

commit-IsSound_example : Returns IsSound (commit ready)
commit-IsSound_example = commit-IsSound libraries-IsDocumented ready ready-IsStaged

one_instruction : IsRun 1 ready
one_instruction e = (ready-IsDefined, λ m₁ m₂ s c. tt)

run-IsSound_example : Returns IsSound (run 1 ready)
run-IsSound_example =
    run-IsSound libraries-IsDocumented libraries-IsDecoder 1 ready ready-IsSound one_instruction

pub addition-IsPlain :
    (h : Hart) (rd imm : ℕ)
    → is_address_initialized h.platform.code h.pc ≡ true
    → fetched_op h ≡ load_immediate rd imm
    → IsPlain h
addition-IsPlain h rd imm valid e = record {
  valid = valid;
  named = rw e tt;
  permitted = rw e (λ t. cc, λ t. cc);
  result = λ a f. addition-defined a _ _ (ap (λ (o : Op). o.opt) (sym e) ∙ f);
  away = (
    λ l f.
        let wrong : OpType.alu Alu.add ≡ OpType.load l = ap (λ (o : Op). o.opt) (sym e) ∙ f in cc,
    λ s f.
        let wrong : OpType.alu Alu.add ≡ OpType.store s = ap (λ (o : Op). o.opt) (sym e) ∙ f in cc,
  );
}

-- One instruction, when it is that one.
pub addi-RunsPlain :
    (h : Hart)
    → is_address_initialized h.platform.code h.pc ≡ true
    → fetched_op h ≡ addi
    → RunsPlain 1 h
addi-RunsPlain h valid e zero h₁ lt Reaches.spent f = addition-IsPlain h 1 5 valid e
addi-RunsPlain h valid e zero h₁ lt (Reaches.halts g) f = addition-IsPlain h 1 5 valid e
addi-RunsPlain h valid e (suc i) h₁ lt r f = absurd (omega arith)

ready_fetched : fetched_op (view ready) ≡ addi
unfolding number_at Accessor.read8 Router.write32 Accessor.write32 Accessor.write16 Accessor.write8
ready_fetched = refl

ready_valid : is_address_initialized (view ready).platform.code (view ready).pc ≡ true
unfolding is_address_initialized
ready_valid = refl

pub ready-RunsPlain : RunsPlain 1 (view ready)
ready-RunsPlain = addi-RunsPlain (view ready) ready_valid ready_fetched

run-Reaches_example : Returns (λ m. Reaches 1 (view ready) (view m) × IsSound m) (run 1 ready)
run-Reaches_example =
    run-Reaches libraries-IsDocumented libraries-IsDecoder 1 ready ready-IsSound ready-RunsPlain
