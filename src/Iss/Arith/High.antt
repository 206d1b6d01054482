-- ===== src/Iss/Arith/High.antt =====
-- What `mulhu`, `mulh` and `mulhsu` compute.
use riscv32_sim.Base.{
  ℕ, suc, ◌⊎◌, inl, inr, Bool-cases, not, ◌>>=◌, ◌&&◌, ◌+◌, ◌-◌, ◌*◌, ◌/◌, ◌%◌, ◌^◌, ◌<◌, ◌≡◌, refl,
  ap, ◌∙◌, arith, Bool, true, false, Result, ok, err, undefined_behaviour, ◌==◌, if◌then◌else◌,
}
use riscv32_sim.Base.Int.{ℤ, pos, negsuc, sub_ℕ, shift_right, ◌*ℤ◌}
use riscv32_sim.Base.Word.{u32, to_i32, to_u32, to_u32-to_i32, to_u32-lt}
use riscv32_sim.Common.{Overflow, Externals}
use riscv32_sim.Iss.Arith.{
  narrow, fits32, is_neg, differ, magnitude, mulhu, mulh, mulhsu, complement_plus,
}
use riscv32_sim.Iss.Arith.Products.{mul_bound, mulhu-high}

-- The high half of the negated product, from that of the product.
high_of_negated :
    (p : ℕ)
    → p < 2 ^ 64
    → complement_plus (p / 2 ^ 32) (to_u32 (sub_ℕ 0 p) == 0) ≡ to_u32 (shift_right (sub_ℕ 0 p) 32)
high_of_negated p h = ground arith

-- The range of an `int32_t`.
abbrev pub IsI32 : ℤ → Type 0
IsI32 (pos n) = n < 2 ^ 31
IsI32 (negsuc n) = n < 2 ^ 31

pub Overflow-cases : (o : Overflow) → (o ≡ Overflow.undefined) ⊎ (o ≡ Overflow.wraps)
Overflow-cases Overflow.undefined = inl refl
Overflow-cases Overflow.wraps = inr refl

-- -(-2 ^ 31) is no `int32_t`.
abbrev pub is_undefined_neg : Overflow → ℤ → Bool
is_undefined_neg o (pos n) = false
is_undefined_neg Overflow.undefined (negsuc n) = n == 2 ^ 31 - 1
is_undefined_neg Overflow.wraps (negsuc n) = false

module _ ⦃x : Externals⦄ where
  pub magnitude_pos : (n : ℕ) → n < 2 ^ 31 → magnitude (pos n) ≡ ok n
  unfolding magnitude
  magnitude_pos n h = ground arith

  pub magnitude_negsuc :
      (n : ℕ)
      → n < 2 ^ 31
      → magnitude (negsuc n)
        ≡ (if is_undefined_neg x.overflow (negsuc n) then err undefined_behaviour else ok (suc n))
  unfolding magnitude
  magnitude_negsuc n h = elim (Overflow-cases x.overflow) [
    | inl e ↦ rw e (ground arith)
    | inr e ↦ rw e (ground arith)
  ]

-- -(n + 1) as a word, times `b`, against the exact product.
pub wrapped_product :
    (n b : ℕ) → n < 2 ^ 31 → u32 (to_u32 (negsuc n) * b) ≡ to_u32 (sub_ℕ 0 (suc n * b))
wrapped_product n b h =
    let k = to_u32 (negsuc n) in
    let whole : k + suc n ≡ 2 ^ 32 = omega arith in ground (arith, ap (λ (t : ℕ). t * b) whole)

module _ ⦃x : Externals⦄ where
  positive_high :
      (m n : ℕ) → m < 2 ^ 32 → n < 2 ^ 32 → mulhu m n ≡ to_u32 (shift_right (pos (m * n)) 32)
  positive_high m n hm hn = omega (
    arith,
    mulhu-high m n hm hn,
    mul_bound m n (2 ^ 32 - 1) (2 ^ 32 - 1) (omega arith) (omega arith),
  )

  negative_high :
      (m n : ℕ)
      → m < 2 ^ 32
      → n < 2 ^ 32
      → complement_plus (mulhu m n) (to_u32 (sub_ℕ 0 (m * n)) == 0)
        ≡ to_u32 (shift_right (sub_ℕ 0 (m * n)) 32)
  negative_high m n hm hn = rw (mulhu-high m n hm hn) (
      high_of_negated (m * n)
        (omega (arith, mul_bound m n (2 ^ 32 - 1) (2 ^ 32 - 1) (omega arith) (omega arith))))

  -- At a signed and an unsigned word `mulhsu` is the high half of their product, but where the
  -- negation in it overflows, which C++ leaves undefined.
  pub mulhsu-high :
      (z : ℤ) (b : ℕ)
      → IsI32 z
      → b < 2 ^ 32
      → mulhsu z b ≡ (
          if is_undefined_neg x.overflow z
          then err undefined_behaviour
          else ok (to_i32 (to_u32 (shift_right (z *ℤ pos b) 32))))
  unfolding mulhsu
  mulhsu-high (pos n) b hz hb =
      unfold magnitude in
      let e : n % 2 ^ 32 ≡ n = omega arith in
      rw e (ap (λ (w : ℕ). ok (to_i32 w)) (positive_high n b (omega arith) hb))
  mulhsu-high (negsuc n) b hz hb = elim (Bool-cases (is_undefined_neg x.overflow (negsuc n))) [
    | inl u ↦ rw (magnitude_negsuc n hz, u)
    | inr u ↦
        rw (magnitude_negsuc n hz, u)
          (ap (λ (w : ℕ). ok (to_i32 (complement_plus (mulhu (suc n) b) (w == 0))))
              (wrapped_product n b hz)
            ∙ ap (λ (w : ℕ). ok (to_i32 w)) (negative_high (suc n) b (omega arith) hb))
  ]

-- An exact result that is no `int32_t`, where that is undefined.
abbrev pub is_undefined_result : Overflow → ℤ → Bool
is_undefined_result Overflow.undefined z = not (fits32 z)
is_undefined_result Overflow.wraps z = false

-- A user of a signed result that looks at its residue only.
pub narrow-residue {ℓ} :
    {A : Type ℓ} (o : Overflow) (z : ℤ) (f : ℕ → Result A)
    → (narrow o z >>= λ p. f (to_u32 p))
      ≡ (if is_undefined_result o z then err undefined_behaviour else f (to_u32 z))
narrow-residue o z f = elim (Bool-cases (fits32 z)) [
  | inl e ↦ elim (Overflow-cases o) [ inl u ↦ rw (u, e) | inr w ↦ rw (w, e) ]
  | inr e ↦ elim (Overflow-cases o) [
    | inl u ↦ rw (u, e)
    | inr w ↦ rw (w, e) (ap f (to_u32-to_i32 (to_u32 z) (to_u32-lt z)))
  ]
]

-- Where `mulh` is undefined: an operand that has no negative, or opposite signs and a product that
-- does not fit.
abbrev pub is_undefined_mulh : Overflow → ℤ → ℤ → Bool
is_undefined_mulh o a b =
    if is_undefined_neg o a
    then true
    else if is_undefined_neg o b
    then true
    else differ (is_neg a) (is_neg b) && is_undefined_result o (a *ℤ b)

module _ ⦃x : Externals⦄ where
  abbrev opposite_signs : ℤ → ℤ → ℕ → ℕ → Result ℤ
  opposite_signs a b m n =
      narrow x.overflow (a *ℤ b) >>= λ p. ok (to_i32 (complement_plus (mulhu m n) (to_u32 p == 0)))

  opposite_signs-high :
      (a b : ℤ) (m n : ℕ)
      → m < 2 ^ 32
      → n < 2 ^ 32
      → a *ℤ b ≡ sub_ℕ 0 (m * n)
      → opposite_signs a b m n ≡ (
          if is_undefined_result x.overflow (a *ℤ b)
          then err undefined_behaviour
          else ok (to_i32 (to_u32 (shift_right (a *ℤ b) 32))))
  opposite_signs-high a b m n hm hn e =
      narrow-residue x.overflow (a *ℤ b) (λ w. ok (to_i32 (complement_plus (mulhu m n) (w == 0))))
      ∙ rw e (
          ap
            (λ (w : ℕ).
              if is_undefined_result x.overflow (sub_ℕ 0 (m * n))
              then err undefined_behaviour
              else ok (to_i32 w))
            (negative_high m n hm hn))

  -- At two signed words `mulh` is the high half of their product, but where a signed operation in
  -- it overflows, which C++ leaves undefined.
  pub mulh-high :
      (a b : ℤ)
      → IsI32 a
      → IsI32 b
      → mulh a b ≡ (
          if is_undefined_mulh x.overflow a b
          then err undefined_behaviour
          else ok (to_i32 (to_u32 (shift_right (a *ℤ b) 32))))
  unfolding mulh
  mulh-high (pos m) (pos n) ha hb =
      rw (magnitude_pos m ha, magnitude_pos n hb)
        (ap (λ (w : ℕ). ok (to_i32 w)) (positive_high m n (omega arith) (omega arith)))
  mulh-high (pos m) (negsuc n) ha hb = elim (Bool-cases (is_undefined_neg x.overflow (negsuc n))) [
    | inl u ↦ rw (magnitude_pos m ha, magnitude_negsuc n hb, u)
    | inr u ↦
        rw (magnitude_pos m ha, magnitude_negsuc n hb, u)
          (opposite_signs-high (pos m) (negsuc n) m (suc n) (omega arith) (omega arith) refl)
  ]
  mulh-high (negsuc m) (pos n) ha hb = elim (Bool-cases (is_undefined_neg x.overflow (negsuc m))) [
    | inl u ↦ rw (magnitude_negsuc m ha, u)
    | inr u ↦
        rw (magnitude_pos n hb, magnitude_negsuc m ha, u)
          (opposite_signs-high (negsuc m) (pos n) (suc m) n (omega arith) (omega arith) refl)
  ]
  mulh-high (negsuc m) (negsuc n) ha hb =
      elim (Bool-cases (is_undefined_neg x.overflow (negsuc m))) [
        | inl u ↦ rw (magnitude_negsuc m ha, u)
        | inr u ↦ elim (Bool-cases (is_undefined_neg x.overflow (negsuc n))) [
          | inl v ↦ rw (magnitude_negsuc m ha, magnitude_negsuc n hb, u, v)
          | inr v ↦
              rw (magnitude_negsuc m ha, magnitude_negsuc n hb, u, v)
                (ap (λ (w : ℕ). ok (to_i32 w))
                  (positive_high (suc m) (suc n) (omega arith) (omega arith)))
        ]
      ]
