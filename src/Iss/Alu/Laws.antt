-- ===== src/Iss/Alu/Laws.antt =====
-- `do_alu` gives the manual's results, wherever C++ defines it.
use riscv32_sim.Base.{
  ℕ, suc, ◌==◌, ltb, leb, ◌>>=◌, ◌+◌, ◌-◌, ◌*◌, ◌/◌, ◌%◌, ◌^◌, ◌<◌, ◌≡◌, refl, ap, ◌∙◌, arith,
  bit_and, Bool, true, false, ok, err, undefined_behaviour, if◌then◌else◌, Bool-cases, inl, inr,
  ◌≢◌,
}
use native.Mathlib.Nat.{mul_comm}
use riscv32_sim.Base.Bits.{bit_and_high}
use riscv32_sim.Base.Int.{ℤ, ◌*ℤ◌, div_trunc, rem_trunc, shift_right}
use riscv32_sim.Base.Word.{u32, to_i32, to_u32, to_u32-to_i32, to_u32-lt}
use riscv32_sim.Common.{Alu, Externals, IsDocumented}
use riscv32_sim.Iss.Arith.High.{
  IsI32, mulh-high, mulhsu-high, narrow-residue, wrapped_product, is_undefined_result,
}
use riscv32_sim.Iss.Arith.Products.{mulhu-high}
use riscv32_sim.Iss.Alu.{shifted, do_alu, div, rem}
use riscv32_sim.Iss.Alu.Spec.{alu_result, is_undefined}

pub to_i32-IsI32 : (a : ℕ) → a < 2 ^ 32 → IsI32 (to_i32 a)
to_i32-IsI32 a h = ground arith

-- Products of the words `s` and `t`, by which two negative operands fall short of 2 ^ 32.
both_negative : (a b s t : ℕ) → a + s ≡ 2 ^ 32 → b + t ≡ 2 ^ 32 → s * t % 2 ^ 32 ≡ a * b % 2 ^ 32
both_negative a b s t ha hb = omega (arith, ap (λ (n : ℕ). n * b) ha, ap (λ (n : ℕ). s * n) hb)

-- The low word of a product does not depend on the signs.
low_product : (a b : ℕ) → a < 2 ^ 32 → b < 2 ^ 32 → to_u32 (to_i32 a *ℤ to_i32 b) ≡ a * b % 2 ^ 32
low_product a b ha hb =
    let s = 2 ^ 32 - a - 1 in
    let t = 2 ^ 32 - b - 1 in
    elim (Bool-cases (ltb a (2 ^ 31))) [
      | inl p ↦ elim (Bool-cases (ltb b (2 ^ 31))) [
        | inl q ↦ rw (p, q)
        | inr q ↦ rw (p, q) (ground (arith, mul_comm a (suc t), mul_comm a b, wrapped_product t a))
      ]
      | inr p ↦ elim (Bool-cases (ltb b (2 ^ 31))) [
        | inl q ↦ rw (p, q) (ground (arith, wrapped_product s b))
        | inr q ↦ rw (p, q) (both_negative a b (suc s) (suc t) (ground arith) (ground arith))
      ]
    ]

-- A shift that is defined takes its whole second operand, which is then below 32.
shifted_lem :
    (f : ℕ → ℕ) (b : ℕ)
    → shifted b (f b) ≡ (if leb 32 b then err undefined_behaviour else ok (f (b % 32)))
shifted_lem f b = elim (Bool-cases (ltb b 32)) [
  | inl p ↦
      let e : b % 32 ≡ b = ground arith in let q : leb 32 b ≡ false = ground arith in rw (p, q, e)
  | inr p ↦ let q : leb 32 b ≡ true = ground arith in rw (p, q)
]

-- A result that goes through `int32_t` comes back as a word.
through_i32 :
    (c : Bool) (z : ℤ)
    → ((if c then err undefined_behaviour else ok (to_i32 (to_u32 z))) >>= λ r. ok (to_u32 r))
      ≡ (if c then err undefined_behaviour else ok (to_u32 z))
through_i32 true z = refl
through_i32 false z = ap ok (to_u32-to_i32 (to_u32 z) (to_u32-lt z))

-- The guard against overflow gives what the exact quotient wraps to.
div_lem :
    (a b : ℕ)
    → a < 2 ^ 32
    → b < 2 ^ 32
    → to_u32 (div (to_i32 a) (to_i32 b))
      ≡ (if b == 0 then 2 ^ 32 - 1 else to_u32 (div_trunc (to_i32 a) (to_i32 b)))
unfolding div
div_lem a b ha hb = ground arith

rem_lem :
    (a b : ℕ)
    → a < 2 ^ 32
    → b < 2 ^ 32
    → to_u32 (rem (to_i32 a) (to_i32 b))
      ≡ (if b == 0 then a else to_u32 (rem_trunc (to_i32 a) (to_i32 b)))
unfolding rem
rem_lem a b ha hb = ground arith

module _ ⦃x : Externals⦄ (d : IsDocumented x) (a b : ℕ) (ha : a < 2 ^ 32) (hb : b < 2 ^ 32) where
  -- For every operation that has an enumerator, at any two words, `do_alu` returns the manual's
  -- result but where C++ leaves the operation undefined.
  pub do_alu-alu_result :
      (opt : Alu)
      → ((n : ℕ) → opt ≢ Alu.unnamed n)
      → do_alu opt a b ≡ (
          if is_undefined x.overflow opt a b
          then err undefined_behaviour
          else ok (alu_result opt a b))
  unfolding do_alu alu_result is_undefined
  do_alu-alu_result Alu.and h = refl
  do_alu-alu_result Alu.or h = refl
  do_alu-alu_result Alu.xor h = refl
  do_alu-alu_result Alu.add h = refl
  do_alu-alu_result Alu.sub h = ground arith
  do_alu-alu_result Alu.sll h = shifted_lem (λ k. a * 2 ^ k % 2 ^ 32) b
  do_alu-alu_result Alu.srl h = shifted_lem (λ k. a / 2 ^ k) b
  do_alu-alu_result Alu.sra h = shifted_lem (λ k. to_u32 (shift_right (to_i32 a) k)) b
  do_alu-alu_result Alu.slt h = refl
  do_alu-alu_result Alu.sltu h = refl
  do_alu-alu_result Alu.mul h =
      narrow-residue x.overflow (to_i32 a *ℤ to_i32 b) ok
      ∙ ap
          (λ (w : ℕ).
            if is_undefined_result x.overflow (to_i32 a *ℤ to_i32 b)
            then err undefined_behaviour
            else ok w)
          (low_product a b ha hb)
  do_alu-alu_result Alu.mulh h =
      rw (mulh-high (to_i32 a) (to_i32 b) (to_i32-IsI32 a ha) (to_i32-IsI32 b hb)) (through_i32 _ _)
  do_alu-alu_result Alu.mulhsu h =
      rw (mulhsu-high (to_i32 a) b (to_i32-IsI32 a ha) hb) (through_i32 _ _)
  do_alu-alu_result Alu.mulhu h = ap ok (mulhu-high a b ha hb)
  do_alu-alu_result Alu.div h = ap ok (div_lem a b ha hb)
  do_alu-alu_result Alu.divu h = refl
  do_alu-alu_result Alu.rem h = ap ok (rem_lem a b ha hb)
  do_alu-alu_result Alu.remu h = refl
  do_alu-alu_result Alu.auipc h = refl
  do_alu-alu_result Alu.jal h = refl
  do_alu-alu_result Alu.jalr h =
      ap ok
        (ap (bit_and (u32 (a + b))) d.lsb_zero_lem ∙ bit_and_high 31 1 (u32 (a + b)) (omega arith))
  do_alu-alu_result (Alu.unnamed n) h = absurd (h n refl)
