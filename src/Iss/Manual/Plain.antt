-- ===== src/Iss/Manual/Plain.antt =====
-- The instructions on which the simulator does what the hart does, and the runs that come only to them.
use riscv32_sim.Base.{ℕ, ◌<◌, ◌≡◌, ◌≢◌, true, false}
use riscv32_sim.Common.{Externals, Op, OpType, Alu, LoadOp, StoreOp, SysOp, Target}
use riscv32_sim.Iss.Alu.Spec.{is_undefined}
use riscv32_sim.Iss.Exec.{is_address_initialized}
use riscv32_sim.Iss.Manual.{Reaches, fetched}
use riscv32_sim.Iss.Manual.State.{Platform, Hart, first, second, place, load_size, store_size}
use riscv32_sim.Memory.Router.{in_register}
use riscv32_sim.Zicsr.Mode.{machine}

-- The target has an enumerator.
abbrev pub IsNamed : Target → Type 0
IsNamed (Target.unnamed n) = ⊥
IsNamed _ = Unit {0}

-- The instructions that put a value in a control register or set bits there, but for csrrsi with
-- zero.
abbrev pub IsExchange : SysOp → Op → Type 0
IsExchange SysOp.csrrw o = Unit {0}
IsExchange SysOp.csrrs o = Unit {0}
IsExchange SysOp.csrrwi o = Unit {0}
IsExchange SysOp.csrrsi o = o.rs1 ≢ 0
IsExchange _ o = ⊥

-- An instruction on a control register is one of these, and a return from a trap is in machine mode.
abbrev pub IsPermitted : Op → Hart → Type 0
IsPermitted o h =
    (o.tgt ≡ Target.csr → (s : SysOp) → o.opt ≡ OpType.sys s → IsExchange s o)
    × (o.tgt ≡ Target.mret → h.mode ≡ machine)

-- A byte access to the address does not go to a timer register.
abbrev pub IsAway : Platform → ℕ → Type 0
IsAway p a = (in_register p.mtime_register a ≡ false) × (in_register p.mtimecmp_register a ≡ false)

-- Nor does the byte access that the instruction makes, if it makes one.
abbrev pub KeepsAway : Op → Hart → Type 0
KeepsAway o h =
    ((l : LoadOp) → o.opt ≡ OpType.load l → load_size l ≡ 1 → IsAway h.platform (place o h))
    × ((s : StoreOp) → o.opt ≡ OpType.store s → store_size s ≡ 1 → IsAway h.platform (place o h))

module _ ⦃x : Externals⦄ where
  -- C++ defines the arithmetic of the instruction.
  abbrev pub HasResult : Op → Hart → Type 0
  HasResult o h =
      (a : Alu) → o.opt ≡ OpType.alu a → is_undefined x.overflow a (first o h) (second o h) ≡ false

  -- The next instruction is in the program, is such an instruction, has a result in C++, and makes
  -- no byte access to a timer register.
  pub record IsPlain (h : Hart) : Type 0 where
    pub valid : is_address_initialized h.platform.code h.pc ≡ true
    pub named : IsNamed (fetched h).tgt
    pub permitted : IsPermitted (fetched h) h
    pub result : HasResult (fetched h) h
    pub away : KeepsAway (fetched h) h

  -- Until it halts, and for so many instructions, the hart comes only to such instructions.
  abbrev pub RunsPlain : ℕ → Hart → Type 0
  RunsPlain n h = (i : ℕ) (h₁ : Hart) → i < n → Reaches i h h₁ → h₁.halted ≡ false → IsPlain h₁
