-- ===== src/Benchmark/Agreement.antt =====
-- The two functions that the benchmark compares agree with each other and with the simulator's.
use riscv32_sim.Base.{ℕ, ◌≡◌, ◌≢◌, refl, ap, ◌∙◌, bit_or, [], ◌∷◌, Result, ok, err, ◌>>=◌}
use riscv32_sim.Base.Bits.{zero-bit_or, bit_or-zero}
use riscv32_sim.Benchmark.Operations.{do_alu_dynamic}
use riscv32_sim.Benchmark.Switch.{alu_function, any_alu_op, fold_or, do_alu_static}
use riscv32_sim.Common.{Alu, Externals}
use riscv32_sim.Iss.Alu.{do_alu, div, rem}

or_left : (r : Result ℕ) → (r >>= λ w. ok (bit_or 0 w)) ≡ r
or_left (ok w) = ap ok (zero-bit_or w)
or_left (err e) = refl

or_right : (r : Result ℕ) → (r >>= λ v. ok (bit_or v 0)) ≡ r
or_right (ok v) = ap ok (bit_or-zero v)
or_right (err e) = refl

all_operations-fold_or :
    (f : Alu → Result ℕ) (opt : Alu)
    → ((n : ℕ) → opt ≢ Alu.unnamed n)
    → fold_or f Alu.or
        (Alu.and ∷ Alu.xor ∷ Alu.add ∷ Alu.auipc ∷ Alu.jal ∷ Alu.sub ∷ Alu.sll ∷ Alu.srl ∷ Alu.sra
          ∷ Alu.slt ∷ Alu.sltu ∷ Alu.jalr ∷ Alu.mulh ∷ Alu.mulhsu ∷ Alu.mulhu ∷ Alu.mul ∷ Alu.divu
          ∷ Alu.remu ∷ Alu.div ∷ Alu.rem ∷ [])
        opt
      ≡ f opt
unfolding fold_or
all_operations-fold_or f (Alu.unnamed n) h = absurd (h n refl)
all_operations-fold_or f Alu.rem h = simp (or_left (f Alu.rem))
all_operations-fold_or f _ h = simp (or_left, or_right)

module _ ⦃x : Externals⦄ where
  static_lem :
      (opt : Alu) (a b : ℕ)
      → ((n : ℕ) → opt ≢ Alu.unnamed n)
      → do_alu_static opt a b ≡ alu_function opt a b
  unfolding do_alu_static any_alu_op
  static_lem (Alu.unnamed n) a b h = absurd (h n refl)
  static_lem _ a b h = all_operations-fold_or (λ o. alu_function o a b) _ h

  function_lem :
      (opt : Alu) (a b : ℕ)
      → ((n : ℕ) → opt ≢ Alu.unnamed n)
      → (alu_function opt a b ≡ do_alu opt a b) × (do_alu_dynamic opt a b ≡ do_alu opt a b)
  unfolding alu_function do_alu do_alu_dynamic div rem
  function_lem (Alu.unnamed n) a b h = absurd (h n refl)
  function_lem _ a b h = (refl, refl)

  -- For every operation that has an enumerator, at any two operands, the template function and the
  -- plain function that the benchmark compares return what the simulator's `do_alu` returns,
  -- undefined behaviour included.
  pub do_alu_static-do_alu :
      (opt : Alu) (a b : ℕ)
      → ((n : ℕ) → opt ≢ Alu.unnamed n)
      → (do_alu_static opt a b ≡ do_alu opt a b) × (do_alu_dynamic opt a b ≡ do_alu opt a b)
  do_alu_static-do_alu opt a b h =
      (static_lem opt a b h ∙ (function_lem opt a b h).0, (function_lem opt a b h).1)
