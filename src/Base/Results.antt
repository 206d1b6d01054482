-- ===== src/Base/Results.antt =====
-- How a run of the program can stop short, and the chaining of fallible steps.
use Prim.Native.Nat.{ℕ}
use Prim.Native.String.{String}
use mathlib.Core.Path.{◌≡◌, refl, sym, subst, ◌∙◌}
use riscv32_sim.Base.Tests.{ltb, if◌then◌else◌}
use mathlib.Core.Bool.{Bool, true, false}

-- The exceptions that the code throws or lets through (`main` catches none of them), a failed
-- assertion, and undefined behaviour of C++.
pub data Fault : Type 0 where
  unexpected_switch_case_value : Fault
  bad_variant_access : Fault
  out_of_range : Fault
  assertion_failed : Fault
  undefined_behaviour : Fault
  runtime_error : Fault
  loader_error : String → Fault

pub data Result {ℓ} (A : Type ℓ) : Type ℓ where
  ok : A → Result A
  err : Fault → Result A

infixl 5 ◌>>=◌
abbrev pub ◌>>=◌ {ι τ} : {V : Type ι} {W : Type τ} → Result V → (V → Result W) → Result W
ok v >>= next = next v
err fault >>= next = err fault

-- `array::at` on an array of `n` entries: the entry, or `std::out_of_range`.
abbrev pub at {ℓ} : {A : Type ℓ} → ℕ → (ℕ → A) → ℕ → Result A
at n f i = if ltb i n then ok (f i) else err out_of_range

-- A run that returns, with a value of which `P` holds.
pub record Returns {ℓ κ} {A : Type ℓ} (P : A → Type κ) (r : Result A) : Type (ℓ ⊔ κ) where
  pub value : A
  pub returns : r ≡ ok value
  pub holds : P value

pub Returns-bind {ℓ κ ι τ} :
    {A : Type ℓ} {B : Type κ} (P : A → Type ι) (Q : B → Type τ) (r : Result A) (f : A → Result B)
    → Returns P r
    → ((a : A) → P a → Returns Q (f a))
    → Returns Q (r >>= f)
Returns-bind P Q r f h k = rw h.returns (k h.value h.holds)

pub ok-if {ℓ} :
    {A : Type ℓ} (b : Bool) (u v : A) → (if b then ok u else ok v) ≡ ok (if b then u else v)
ok-if true u v = refl
ok-if false u v = refl

pub Returns-if {ℓ κ} :
    {A : Type ℓ} (P : A → Type κ) (b : Bool) {u v : Result A}
    → (b ≡ true → Returns P u)
    → (b ≡ false → Returns P v)
    → Returns P (if b then u else v)
Returns-if P true f g = f refl
Returns-if P false f g = g refl

-- A run returns one value only.
pub Returns-unique {ℓ κ} :
    {A : Type ℓ} (P : A → Type κ) (r : Result A) (v : A) → r ≡ ok v → Returns P r → P v
Returns-unique P r v h s =
    let e : ok v ≡ ok s.value = sym h ∙ s.returns in
    let same : s.value ≡ v = cc in subst P same s.holds
