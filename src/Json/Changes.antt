-- ===== src/Json/Changes.antt =====
-- The conversions of `gpr_change` and `csr_change`.
use Prim.Native.String.{String}
use text.Mathlib.Text.{◌==◌}
use riscv32_sim.Base.{
  ℕ, ◌^◌, ◌<◌, ◌≡◌, arith, List, [], ◌∷◌, Result, ok, err, out_of_range, ◌>>=◌, if◌then◌else◌,
}
use riscv32_sim.Base.Word.{u8, u16, u32}
use riscv32_sim.Common.{GprChange, CsrChange}

-- An object whose values are numbers.
abbrev pub Object : Type 0
Object = List (String × ℕ)

-- `j.at(key)`: an exception of the library where there is no such key.
unfoldable pub value_at : String → Object → Result ℕ
value_at key [] = err out_of_range
value_at key ((name, value) ∷ entries) =
    let rest = value_at key entries in if name == key then ok value else rest

unfoldable pub gpr_to_json : GprChange → Object
gpr_to_json gpr = ("index", gpr.index) ∷ ("prev", gpr.prev) ∷ ("next", gpr.next) ∷ []

unfoldable pub gpr_from_json : Object → Result GprChange
unfolding value_at
gpr_from_json j = do
  index ← value_at "index" j
  prev ← value_at "prev" j
  next ← value_at "next" j
  ok (record { index = u8 index; prev = u32 prev; next = u32 next })

unfoldable pub csr_to_json : CsrChange → Object
csr_to_json csr = ("index", csr.index) ∷ ("prev", csr.prev) ∷ ("next", csr.next) ∷ []

unfoldable pub csr_from_json : Object → Result CsrChange
unfolding value_at
csr_from_json j = do
  index ← value_at "index" j
  prev ← value_at "prev" j
  next ← value_at "next" j
  ok (record { index = u16 index; prev = u32 prev; next = u32 next })

-- A change of a general-purpose register whose members have their widths is read back from the
-- object that it is written to.
pub gpr_from_json-to_json :
    (gpr : GprChange)
    → gpr.index < 2 ^ 8
    → gpr.prev < 2 ^ 32
    → gpr.next < 2 ^ 32
    → gpr_from_json (gpr_to_json gpr) ≡ ok gpr
unfolding gpr_from_json gpr_to_json
gpr_from_json-to_json gpr hi hp hn = ground arith

pub csr_from_json-to_json :
    (csr : CsrChange)
    → csr.index < 2 ^ 16
    → csr.prev < 2 ^ 32
    → csr.next < 2 ^ 32
    → csr_from_json (csr_to_json csr) ≡ ok csr
unfolding csr_from_json csr_to_json
csr_from_json-to_json csr hi hp hn = ground arith
