-- ===== src/Iss/Arith/Products.antt =====
-- The schoolbook product of half words that `mulhu` (riscv32-sim/include/iss/arith.hpp) adds up.
use riscv32_sim.Base.{
  ℕ, ◌+◌, ◌-◌, ◌*◌, ◌/◌, ◌%◌, ◌^◌, ◌≤◌, ◌<◌, ◌≡◌, sym, ap, ap₂, ◌∙◌, bit_or, arith,
}
use riscv32_sim.Base.Bits.{bit_or_disjoint}
use riscv32_sim.Base.Word.{u16, u32}
use riscv32_sim.Iss.Arith.{mulhu}

pub mul_bound : (p q m n : ℕ) → p ≤ m → q ≤ n → p * q ≤ m * n
mul_bound p q m n hp hq = grind arith

pub product_of_halves : (p q : ℕ) → p < 2 ^ 16 → q < 2 ^ 16 → p * q ≤ (2 ^ 16 - 1) * (2 ^ 16 - 1)
product_of_halves p q hp hq = mul_bound p q (2 ^ 16 - 1) (2 ^ 16 - 1) (omega arith) (omega arith)

-- The carries of the schoolbook product, for any four partial products.
carries :
    (low mid₁ mid₂ high : ℕ)
    → low ≤ (2 ^ 16 - 1) * (2 ^ 16 - 1)
    → mid₁ ≤ (2 ^ 16 - 1) * (2 ^ 16 - 1)
    → mid₂ ≤ (2 ^ 16 - 1) * (2 ^ 16 - 1)
    → high ≤ (2 ^ 16 - 1) * (2 ^ 16 - 1)
    → let t = u32 (u32 mid₁ + u32 low / 2 ^ 16) in
      let t' = u32 (u32 mid₂ + u16 t) in
      u32 (u32 (u32 high + u16 (t / 2 ^ 16)) + t' / 2 ^ 16)
      ≡ (high * 2 ^ 32 + (mid₁ + mid₂) * 2 ^ 16 + low) / 2 ^ 32
carries low mid₁ mid₂ high h₀ h₁ h₂ h₃ = omega arith

joined : (t : ℕ) → t < 2 ^ 32 → bit_or (u32 (u16 (t / 2 ^ 16) * 2 ^ 16)) (u16 t) ≡ t
joined t h =
    let high : u32 (u16 (t / 2 ^ 16) * 2 ^ 16) ≡ t / 2 ^ 16 * 2 ^ 16 = omega arith in
    ap (λ (n : ℕ). bit_or n (u16 t)) high
    ∙ bit_or_disjoint 16 (t / 2 ^ 16) (t % 2 ^ 16) (omega arith)
    ∙ omega arith

expanded :
    (a_1 a_0 b_1 b_0 : ℕ)
    → (a_1 * 2 ^ 16 + a_0) * (b_1 * 2 ^ 16 + b_0)
      ≡ a_1 * b_1 * 2 ^ 32 + (a_1 * b_0 + a_0 * b_1) * 2 ^ 16 + a_0 * b_0
expanded a_1 a_0 b_1 b_0 = omega arith

product_expanded :
    (a b : ℕ)
    → a * b
      ≡ a / 2 ^ 16 * (b / 2 ^ 16) * 2 ^ 32
        + (a / 2 ^ 16 * (b % 2 ^ 16) + a % 2 ^ 16 * (b / 2 ^ 16)) * 2 ^ 16
        + a % 2 ^ 16 * (b % 2 ^ 16)
product_expanded a b =
    let cut_a : a ≡ a / 2 ^ 16 * 2 ^ 16 + a % 2 ^ 16 = omega arith in
    let cut_b : b ≡ b / 2 ^ 16 * 2 ^ 16 + b % 2 ^ 16 = omega arith in
    ap₂ ◌*◌ cut_a cut_b ∙ expanded (a / 2 ^ 16) (a % 2 ^ 16) (b / 2 ^ 16) (b % 2 ^ 16)

-- At two words `mulhu` is the high half of their 64-bit product.
pub mulhu-high : (a b : ℕ) → a < 2 ^ 32 → b < 2 ^ 32 → mulhu a b ≡ a * b / 2 ^ 32
unfolding mulhu
mulhu-high a b ha hb =
    joined _ (omega arith)
    ∙ carries (a % 2 ^ 16 * (b % 2 ^ 16)) (a / 2 ^ 16 * (b % 2 ^ 16)) (a % 2 ^ 16 * (b / 2 ^ 16))
        (a / 2 ^ 16 * (b / 2 ^ 16)) (product_of_halves _ _ (omega arith) (omega arith))
        (product_of_halves _ _ (omega arith) (omega arith))
        (product_of_halves _ _ (omega arith) (omega arith))
        (product_of_halves _ _ (omega arith) (omega arith))
    ∙ ap (λ (n : ℕ). n / 2 ^ 32) (sym (product_expanded a b))
