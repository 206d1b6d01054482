-- ===== src/Json/Operation/Laws.antt =====
-- What `from_json` makes of a number that `to_json` wrote.
use riscv32_sim.Base.{
  ℕ, ◌+◌, ◌-◌, ◌^◌, ◌≤◌, ◌<◌, ◌≡◌, ◌⊎◌, inl, inr, refl, subst, arith, err, runtime_error,
}
use riscv32_sim.Base.Word.{u8}
use riscv32_sim.Common.{OpType}
use riscv32_sim.Json.Operation.{Enumerators, to_json, parse_empty, parse_range, parse, from_json}

-- The operation's number lies in the range of its kind, and the casts bring it back.
abbrev pub Fits : Enumerators → OpType → Type 0
Fits e OpType.monostate = Unit {0}
Fits e (OpType.alu a) = (e.alu_value a ≤ 50) × (e.alu_of (e.alu_value a) ≡ a)
Fits e (OpType.load l) = (e.load_value l ≤ 9) × (e.load_of (e.load_value l) ≡ l)
Fits e (OpType.store s) = (e.store_value s ≤ 9) × (e.store_of (e.store_value s) ≡ s)
Fits e (OpType.branch b) = (e.branch_value b ≤ 9) × (e.branch_of (e.branch_value b) ≡ b)
Fits e (OpType.sys s) = (e.sys_value s ≤ 18) × (e.sys_of (e.sys_value s) ≡ s)

parse_range-in :
    (lo hi base v : ℕ) (make : ℕ → OpType) (type : OpType)
    → lo ≤ base + v
    → base + v ≤ hi
    → parse_range lo hi base make (record { x = base + v; type = type })
      ≡ record { x = v; type = make v }
unfolding parse_range
parse_range-in lo hi base v make type h k =
    let e : base + v - base ≡ v = omega arith in ground (arith, e)

parse_range-out :
    (lo hi base x : ℕ) (make : ℕ → OpType) (type : OpType)
    → (x < lo) ⊎ (hi < x)
    → parse_range lo hi base make (record { x = x; type = type }) ≡ record { x = x; type = type }
unfolding parse_range
parse_range-out lo hi base x make type (inl h) = ground arith
parse_range-out lo hi base x make type (inr h) = ground arith

parse_empty-out :
    (x : ℕ) (type : OpType)
    → 0 < x
    → parse_empty (record { x = x; type = type }) ≡ record { x = x; type = type }
unfolding parse_empty
parse_empty-out x type h = ground arith

parsed_sys :
    (e : Enumerators) (v : ℕ) (type : OpType)
    → v ≤ 18
    → parse e (record { x = 1 + v; type = type }) ≡ record { x = v; type = OpType.sys (e.sys_of v) }
unfolding parse
parsed_sys e v type h =
    rw
      (
        parse_empty-out (1 + v) type (omega arith),
        parse_range-in 1 19 1 v (λ n. OpType.sys (e.sys_of n)) type (omega arith) (omega arith),
        parse_range-out 20 29 20 v (λ n. OpType.branch (e.branch_of n)) (OpType.sys (e.sys_of v))
            (inl (omega arith)),
        parse_range-out 30 39 30 v (λ n. OpType.store (e.store_of n)) (OpType.sys (e.sys_of v))
            (inl (omega arith)),
        parse_range-out 40 49 40 v (λ n. OpType.load (e.load_of n)) (OpType.sys (e.sys_of v))
            (inl (omega arith)),
        parse_range-out 50 100 50 v (λ n. OpType.alu (e.alu_of n)) (OpType.sys (e.sys_of v))
            (inl (omega arith)),
      )
      refl

parsed_branch :
    (e : Enumerators) (v : ℕ) (type : OpType)
    → v ≤ 9
    → parse e (record { x = 20 + v; type = type })
      ≡ record { x = v; type = OpType.branch (e.branch_of v) }
unfolding parse
parsed_branch e v type h =
    rw
      (
        parse_empty-out (20 + v) type (omega arith),
        parse_range-out 1 19 1 (20 + v) (λ n. OpType.sys (e.sys_of n)) type (inr (omega arith)),
        parse_range-in 20 29 20 v (λ n. OpType.branch (e.branch_of n)) type (omega arith)
            (omega arith),
        parse_range-out 30 39 30 v (λ n. OpType.store (e.store_of n))
            (OpType.branch (e.branch_of v)) (inl (omega arith)),
        parse_range-out 40 49 40 v (λ n. OpType.load (e.load_of n)) (OpType.branch (e.branch_of v))
            (inl (omega arith)),
        parse_range-out 50 100 50 v (λ n. OpType.alu (e.alu_of n)) (OpType.branch (e.branch_of v))
            (inl (omega arith)),
      )
      refl

parsed_store :
    (e : Enumerators) (v : ℕ) (type : OpType)
    → v ≤ 9
    → parse e (record { x = 30 + v; type = type })
      ≡ record { x = v; type = OpType.store (e.store_of v) }
unfolding parse
parsed_store e v type h =
    rw
      (
        parse_empty-out (30 + v) type (omega arith),
        parse_range-out 1 19 1 (30 + v) (λ n. OpType.sys (e.sys_of n)) type (inr (omega arith)),
        parse_range-out 20 29 20 (30 + v) (λ n. OpType.branch (e.branch_of n)) type
            (inr (omega arith)),
        parse_range-in 30 39 30 v (λ n. OpType.store (e.store_of n)) type (omega arith)
            (omega arith),
        parse_range-out 40 49 40 v (λ n. OpType.load (e.load_of n)) (OpType.store (e.store_of v))
            (inl (omega arith)),
        parse_range-out 50 100 50 v (λ n. OpType.alu (e.alu_of n)) (OpType.store (e.store_of v))
            (inl (omega arith)),
      )
      refl

parsed_load :
    (e : Enumerators) (v : ℕ) (type : OpType)
    → v ≤ 9
    → parse e (record { x = 40 + v; type = type })
      ≡ record { x = v; type = OpType.load (e.load_of v) }
unfolding parse
parsed_load e v type h =
    rw
      (
        parse_empty-out (40 + v) type (omega arith),
        parse_range-out 1 19 1 (40 + v) (λ n. OpType.sys (e.sys_of n)) type (inr (omega arith)),
        parse_range-out 20 29 20 (40 + v) (λ n. OpType.branch (e.branch_of n)) type
            (inr (omega arith)),
        parse_range-out 30 39 30 (40 + v) (λ n. OpType.store (e.store_of n)) type
            (inr (omega arith)),
        parse_range-in 40 49 40 v (λ n. OpType.load (e.load_of n)) type (omega arith) (omega arith),
        parse_range-out 50 100 50 v (λ n. OpType.alu (e.alu_of n)) (OpType.load (e.load_of v))
            (inl (omega arith)),
      )
      refl

parsed_alu :
    (e : Enumerators) (v : ℕ) (type : OpType)
    → v ≤ 50
    → parse e (record { x = 50 + v; type = type })
      ≡ record { x = v; type = OpType.alu (e.alu_of v) }
unfolding parse
parsed_alu e v type h =
    rw
      (
        parse_empty-out (50 + v) type (omega arith),
        parse_range-out 1 19 1 (50 + v) (λ n. OpType.sys (e.sys_of n)) type (inr (omega arith)),
        parse_range-out 20 29 20 (50 + v) (λ n. OpType.branch (e.branch_of n)) type
            (inr (omega arith)),
        parse_range-out 30 39 30 (50 + v) (λ n. OpType.store (e.store_of n)) type
            (inr (omega arith)),
        parse_range-out 40 49 40 (50 + v) (λ n. OpType.load (e.load_of n)) type (inr (omega arith)),
        parse_range-in 50 100 50 v (λ n. OpType.alu (e.alu_of n)) type (omega arith) (omega arith),
      )
      refl

parsed_monostate :
    (e : Enumerators) (type : OpType)
    → parse e (record { x = 0; type = type }) ≡ record { x = 0; type = OpType.monostate }
unfolding parse parse_empty parse_range
parsed_monostate e type = refl

-- What `parse` leaves of a number that fits.
from_json_at :
    (e : Enumerators) (j x : ℕ) (before t : OpType) (v : ℕ)
    → u8 j ≡ x
    → parse e (record { x = x; type = before }) ≡ record { x = v; type = t }
    → from_json e j before ≡ (t, err runtime_error)
unfolding from_json
from_json_at e j x before t v hx hp = rw (hx, hp) refl

u8_sum : (base v : ℕ) → base + v < 2 ^ 8 → u8 (base + u8 v) ≡ base + v
u8_sum base v h = omega arith

-- For an operation whose number lies in the range of its kind and whose casts bring it back,
-- `from_json` puts the operation that `to_json` wrote into its argument, whatever that held, and
-- then throws nevertheless.
pub from_json-to_json :
    (e : Enumerators) (t before : OpType)
    → Fits e t
    → from_json e (to_json e t) before ≡ (t, err runtime_error)
unfolding to_json
from_json-to_json e OpType.monostate before h =
    from_json_at e 0 0 before OpType.monostate 0 refl (parsed_monostate e before)
from_json-to_json e (OpType.alu a) before (h, k) =
    let v = e.alu_value a in
    subst (λ c. from_json e (50 + u8 v) before ≡ (OpType.alu c, err runtime_error)) k
      (from_json_at e (50 + u8 v) (50 + v) before (OpType.alu (e.alu_of v)) v
        (u8_sum 50 v (omega arith)) (parsed_alu e v before h))
from_json-to_json e (OpType.load a) before (h, k) =
    let v = e.load_value a in
    subst (λ c. from_json e (40 + u8 v) before ≡ (OpType.load c, err runtime_error)) k
      (from_json_at e (40 + u8 v) (40 + v) before (OpType.load (e.load_of v)) v
        (u8_sum 40 v (omega arith)) (parsed_load e v before h))
from_json-to_json e (OpType.store a) before (h, k) =
    let v = e.store_value a in
    subst (λ c. from_json e (30 + u8 v) before ≡ (OpType.store c, err runtime_error)) k
      (from_json_at e (30 + u8 v) (30 + v) before (OpType.store (e.store_of v)) v
        (u8_sum 30 v (omega arith)) (parsed_store e v before h))
from_json-to_json e (OpType.branch a) before (h, k) =
    let v = e.branch_value a in
    subst (λ c. from_json e (20 + u8 v) before ≡ (OpType.branch c, err runtime_error)) k
      (from_json_at e (20 + u8 v) (20 + v) before (OpType.branch (e.branch_of v)) v
        (u8_sum 20 v (omega arith)) (parsed_branch e v before h))
from_json-to_json e (OpType.sys a) before (h, k) =
    let v = e.sys_value a in
    subst (λ c. from_json e (1 + u8 v) before ≡ (OpType.sys c, err runtime_error)) k
      (from_json_at e (1 + u8 v) (1 + v) before (OpType.sys (e.sys_of v)) v
        (u8_sum 1 v (omega arith)) (parsed_sys e v before h))
