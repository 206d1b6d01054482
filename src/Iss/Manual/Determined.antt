-- ===== src/Iss/Manual/Determined.antt =====
-- The reference hart has one state after an instruction, and so after any number of them.
use riscv32_sim.Base.{ℕ, ◌+◌, ◌%◌, ◌^◌, ◌≡◌, ◌==◌, ◌⊎◌, inl, inr, refl, sym, subst, ◌∙◌}
use riscv32_sim.Common.{Externals, Op, OpType, Alu, SysOp, Target}
use riscv32_sim.Iss.Alu.Spec.{alu_result}
use riscv32_sim.Iss.Branch.{Taken}
use riscv32_sim.Iss.LoadStore.Laws.{loaded}
use riscv32_sim.Iss.Manual.{Executes, Reaches, fetched}
use riscv32_sim.Iss.Manual.State.{
  Hart, go_to, with_reg, first, second, following, place, load_size, store_size, csr_operand,
  csr_value,
}
use riscv32_sim.Iss.Trap.{privilege_of}
use riscv32_sim.Iss.Trap.Return.{mstatus_left}
use riscv32_sim.Base.Bitset.{bit}
use riscv32_sim.Base.{update}
use riscv32_sim.Iss.Manual.Traps.{Exception, ReachesCsr, Raises, trapped, settled}
use riscv32_sim.Memory.Bytes.{number_at, stored}

abbrev alu_outcome : Alu → Op → Hart → Hart
alu_outcome Alu.jal o h =
    go_to (with_reg h o.rd (following o h)) (alu_result Alu.jal (first o h) (second o h))
alu_outcome Alu.jalr o h =
    go_to (with_reg h o.rd (following o h)) (alu_result Alu.jalr (first o h) (second o h))
alu_outcome a o h = go_to (with_reg h o.rd (alu_result a (first o h) (second o h))) (following o h)

abbrev exchanged : SysOp → Op → Hart → Hart
exchanged s o h =
    go_to
      (record (with_reg h o.rd (h.csrs o.imm)) {
        csrs = update h.csrs o.imm (csr_value s (csr_operand s o h) (h.csrs o.imm));
      })
      (following o h)

-- What is known of the state after an instruction, by its target and its kind.
abbrev Outcome : Target → OpType → Op → Hart → Hart → Type 0
Outcome Target.alu (OpType.alu a) o h h' = h' ≡ alu_outcome a o h
Outcome Target.load (OpType.load l) o h h' =
    h'
    ≡ go_to (with_reg h o.rd (loaded l (number_at h.bytes (place o h) (load_size l))))
        (following o h)
Outcome Target.store (OpType.store s) o h h' =
    h'
    ≡ go_to
        (record h {
          bytes = stored h.bytes (place o h) (store_size s) (h.regs o.rs2);
          halted = place o h == h.tohost;
        })
        (following o h)
Outcome Target.branch (OpType.branch b) o h h' =
    (Taken b (h.regs o.rs1) (h.regs o.rs2) × (h' ≡ go_to h ((h.pc + o.imm) % 2 ^ 32)))
    ⊎ ((¬ Taken b (h.regs o.rs1) (h.regs o.rs2)) × (h' ≡ go_to h (following o h)))
Outcome Target.csr (OpType.sys s) o h h' =
    (ReachesCsr s o h × (h' ≡ exchanged s o h))
    ⊎ ((¬ ReachesCsr s o h) × (h' ≡ trapped Exception.illegal h))
Outcome Target.illegal t o h h' = h' ≡ trapped Exception.illegal h
Outcome Target.ebreak t o h h' = h' ≡ trapped Exception.breakpoint h
Outcome Target.ecall t o h h' = h' ≡ trapped Exception.call h
Outcome Target.mret t o h h' =
    h'
    ≡ go_to
        (record h {
          csrs = update h.csrs 0x300 (mstatus_left (h.csrs 0x300));
          mode = privilege_of (bit (h.csrs 0x300) 12) (bit (h.csrs 0x300) 11);
        })
        (h.csrs 0x341)
Outcome _ _ o h h' = ⊥

jumps-Outcome :
    (a : Alu) (o : Op) (h : Hart)
    → (a ≡ Alu.jal) ⊎ (a ≡ Alu.jalr)
    → Outcome Target.alu
        (OpType.alu a)
        o
        h
        (go_to (with_reg h o.rd (following o h)) (alu_result a (first o h) (second o h)))
jumps-Outcome Alu.jal o h j = refl
jumps-Outcome Alu.jalr o h j = refl
jumps-Outcome a o h (inl j) = cc
jumps-Outcome a o h (inr j) = cc

computes-Outcome :
    (a : Alu) (o : Op) (h : Hart)
    → ¬ (a ≡ Alu.jal)
    → ¬ (a ≡ Alu.jalr)
    → Outcome Target.alu
        (OpType.alu a)
        o
        h
        (go_to (with_reg h o.rd (alu_result a (first o h) (second o h))) (following o h))
computes-Outcome Alu.jal o h j k = absurd (j refl)
computes-Outcome Alu.jalr o h j k = absurd (k refl)
computes-Outcome _ o h j k = refl

Raises-Outcome :
    {o : Op} {h : Hart} {e : Exception} → Raises o h e → Outcome o.tgt o.opt o h (trapped e h)
Raises-Outcome (Raises.is_illegal t) = rw t refl
Raises-Outcome (Raises.is_breakpoint t) = rw t refl
Raises-Outcome (Raises.is_call t) = rw t refl
Raises-Outcome (Raises.is_unreached s t e away) = simp (t, e) (inr (away, refl))

Executes-Outcome : {o : Op} {h h' : Hart} → Executes o h h' → Outcome o.tgt o.opt o h h'
Executes-Outcome (Executes.computes a t e j k) = rw (t, e) (computes-Outcome a _ _ j k)
Executes-Outcome (Executes.jumps a t e j) = rw (t, e) (jumps-Outcome a _ _ j)
Executes-Outcome (Executes.loads l t e) = rw (t, e) refl
Executes-Outcome (Executes.stores s t e) = rw (t, e) refl
Executes-Outcome (Executes.branches b t e taken) = rw (t, e) (inl (taken, refl))
Executes-Outcome (Executes.passes b t e taken) = rw (t, e) (inr (taken, refl))
Executes-Outcome (Executes.exchanges s t e reaches) = simp (t, e) (inl (reaches, refl))
Executes-Outcome (Executes.returns t) = rw t refl
Executes-Outcome (Executes.traps e r) = Raises-Outcome r

Outcome-unique :
    (g : Target) (t : OpType) (o : Op) (h h₁ h₂ : Hart)
    → Outcome g t o h h₁
    → Outcome g t o h h₂
    → h₁ ≡ h₂
Outcome-unique Target.alu (OpType.alu a) o h h₁ h₂ p q = p ∙ sym q
Outcome-unique Target.load (OpType.load l) o h h₁ h₂ p q = p ∙ sym q
Outcome-unique Target.store (OpType.store s) o h h₁ h₂ p q = p ∙ sym q
Outcome-unique Target.branch (OpType.branch b) o h h₁ h₂ (inl p) (inl q) = p.1 ∙ sym q.1
Outcome-unique Target.branch (OpType.branch b) o h h₁ h₂ (inr p) (inr q) = p.1 ∙ sym q.1
Outcome-unique Target.branch (OpType.branch b) o h h₁ h₂ (inl p) (inr q) = absurd (q.0 p.0)
Outcome-unique Target.branch (OpType.branch b) o h h₁ h₂ (inr p) (inl q) = absurd (p.0 q.0)
Outcome-unique Target.csr (OpType.sys s) o h h₁ h₂ (inl p) (inl q) = p.1 ∙ sym q.1
Outcome-unique Target.csr (OpType.sys s) o h h₁ h₂ (inr p) (inr q) = p.1 ∙ sym q.1
Outcome-unique Target.csr (OpType.sys s) o h h₁ h₂ (inl p) (inr q) = absurd (q.0 p.0)
Outcome-unique Target.csr (OpType.sys s) o h h₁ h₂ (inr p) (inl q) = absurd (p.0 q.0)
Outcome-unique Target.illegal t o h h₁ h₂ p q = p ∙ sym q
Outcome-unique Target.ebreak t o h h₁ h₂ p q = p ∙ sym q
Outcome-unique Target.ecall t o h h₁ h₂ p q = p ∙ sym q
Outcome-unique Target.mret t o h h₁ h₂ p q = p ∙ sym q
Outcome-unique _ _ o h h₁ h₂ p q = absurd p

pub Executes-unique : (o : Op) (h h₁ h₂ : Hart) → Executes o h h₁ → Executes o h h₂ → h₁ ≡ h₂
Executes-unique o h h₁ h₂ p q =
    Outcome-unique o.tgt o.opt o h h₁ h₂ (Executes-Outcome p) (Executes-Outcome q)

module _ ⦃x : Externals⦄ where
  -- As many instructions lead from a state to one state only.
  pub Reaches-unique : {n : ℕ} {h h₁ h₂ : Hart} → Reaches n h h₁ → Reaches n h h₂ → h₁ ≡ h₂
  Reaches-unique Reaches.spent Reaches.spent = refl
  Reaches-unique Reaches.spent (Reaches.halts e) = refl
  Reaches-unique (Reaches.halts e) Reaches.spent = refl
  Reaches-unique (Reaches.halts e) (Reaches.halts e') = refl
  Reaches-unique (Reaches.halts e) (Reaches.goes f q qs) = cc
  Reaches-unique (Reaches.goes f p ps) (Reaches.halts e) = cc
  Reaches-unique (Reaches.goes {n = n} {h = h} {h' = a} f p ps)
        (Reaches.goes {h' = b} {h'' = c} g q qs) =
      let same = Executes-unique (fetched h) h b a q p in
      Reaches-unique ps (subst (λ d. Reaches n (settled d) c) same qs)
