-- ===== src/Iss/Manual/CsrAccesses.antt =====
-- The instructions on control registers (`model::csr`) do what the hart does.
use native.Mathlib.Decide.{dec_le, ℕ_discrete}
use riscv32_sim.Base.{
  ℕ, ◌^◌, ◌<◌, ◌/◌, ◌%◌, ◌≡◌, ◌≢◌, ◌⊎◌, inl, inr, refl, ◌∙◌, arith, true, false, not, ◌&&◌, ◌==◌,
  if◌then◌else◌, update, Returns, fun_ext, Bool-cases,
}
use riscv32_sim.Common.{Externals, IsDocumented, Op, OpType, SysOp, Target}
use riscv32_sim.Iss.CsrInstr.{csr}
use riscv32_sim.Iss.CsrInstr.Laws.{csr-Exchanges}
use riscv32_sim.Iss.CsrInstr.Parts.{Writes, Exchanges, csrrw, csrrs, csrrwi, csrrsi}
use riscv32_sim.Iss.Manual.{Executes, view}
use riscv32_sim.Iss.Manual.State.{Hart, csr_operand, csr_value, following}
use riscv32_sim.Iss.Manual.Traps.{Exception, only_reads, ReachesCsr, Raises}
use riscv32_sim.Iss.Manual.Exceptions.{illegal-Traps}
use riscv32_sim.Iss.CsrInstr.Unreached.{Stops, csr-unreached}
use riscv32_sim.Iss.Manual.Plain.{IsExchange}
use riscv32_sim.Iss.Manual.Handlers.{next_pc, Does}
use riscv32_sim.Iss.Sound.{Matches, IsStaged}
use riscv32_sim.Iss.State.{Model}
use riscv32_sim.Zicsr.Mode.{to_int, can_read, can_write}
use riscv32_sim.Zicsr.Mode.Access.{access}
use riscv32_sim.Iss.Manual.System.{raised-Does}

-- A write to `rd`, but to x0.
write_rd :
    (f : ℕ → ℕ) (rd v i : ℕ)
    → (if not (rd == 0) && rd == i then v else f i) ≡ (if rd == 0 then f else update f rd v) i
write_rd f rd v i = elim (Bool-cases (rd == 0)) [ inl e ↦ rw e refl | inr e ↦ rw e refl ]

ReachesCsr-cases : (s : SysOp) (o : Op) (h : Hart) → ReachesCsr s o h ⊎ (¬ ReachesCsr s o h)
ReachesCsr-cases s o h = elim (dec_le (o.imm / 2 ^ 8 % 4) (to_int h.mode)) [
  | no l ↦ inr (λ r. l r.0)
  | yes l ↦ elim (Bool-cases (only_reads s o)) [
    | inl e ↦ inl (l, inl e)
    | inr e ↦ elim (ℕ_discrete (o.imm / 2 ^ 10 % 4) 3) [
      | yes f ↦ inr (λ r. elim r.1 [ inl g ↦ cc | inr g ↦ g f ])
      | no f ↦ inl (l, inr f)
    ]
  ]
]

-- Of the exchanges only csrrs with x0 does not write.
may_write :
    (s : SysOp) (o : Op)
    → IsExchange s o
    → (only_reads s o ≡ true) ⊎ (o.imm / 2 ^ 10 % 4 ≢ 3)
    → ((s ≡ SysOp.csrrs) × (o.rs1 ≡ 0)) ⊎ (o.imm / 2 ^ 10 % 4 ≢ 3)
may_write s o h (inr w) = inr w
may_write SysOp.csrrw o h (inl r) = cc
may_write SysOp.csrrs o h (inl r) = inl (refl, ground arith)
may_write SysOp.csrrwi o h (inl r) = cc
may_write SysOp.csrrsi o h (inl r) = absurd (h (ground arith))
may_write _ o h (inl r) = absurd h

module _ ⦃x : Externals⦄ where
  -- The new value of the register, in both descriptions.
  csr_value-Writes :
      (m : Model) (s : SysOp) (old : ℕ)
      → IsExchange s m.cur_state.dec
      → Writes m old s (csr_value s (csr_operand s m.cur_state.dec (view m)) old)
  csr_value-Writes m SysOp.csrrw old h = csrrw
  csr_value-Writes m SysOp.csrrs old h = csrrs
  csr_value-Writes m SysOp.csrrwi old h = csrrwi
  csr_value-Writes m SysOp.csrrsi old h = csrrsi
  csr_value-Writes m _ old h = absurd h

module _ ⦃x : Externals⦄ (d : IsDocumented x) (m : Model) (s : IsStaged m)
    (staged : next_pc m ≡ following m.cur_state.dec (view m)) where
  Exchanges-Does :
      (o : SysOp) (m' : Model)
      → m.cur_state.dec.tgt ≡ Target.csr
      → m.cur_state.dec.opt ≡ OpType.sys o
      → ReachesCsr o m.cur_state.dec (view m)
      → Exchanges m
          (csr_value o (csr_operand o m.cur_state.dec (view m)) (m.csrf m.cur_state.dec.imm))
          m'
      → Does m m'
  Exchanges-Does o m' t e reaches c =
      rw
        (
          c.code_same,
          c.opts_same,
          c.tohost_same,
          c.done_same,
          c.mem_same,
          c.mode_same,
          c.pc_same,
          staged,
          fun_ext c.csr_new,
          fun_ext (λ i. c.gpr_new i ∙ write_rd m.regf m.cur_state.dec.rd _ i),
        )
        (Executes.exchanges o t e reaches)

  -- The level reaches the register.
  reached-Does :
      (o : SysOp)
      → m.cur_state.dec.tgt ≡ Target.csr
      → m.cur_state.dec.opt ≡ OpType.sys o
      → m.cur_state.dec.imm < 4096
      → IsExchange o m.cur_state.dec
      → ReachesCsr o m.cur_state.dec (view m)
      → Returns (Does m) (csr m)
  reached-Does o t e fits kind reaches =
      let dec = m.cur_state.dec in
      let lets = access d m.mode dec.imm in
      let new = csr_value o (csr_operand o dec (view m)) (m.csrf dec.imm) in
      let may = may_write o dec kind reaches.1 in
      let writes : ((o ≡ SysOp.csrrs) × (dec.rs1 ≡ 0)) ⊎ (can_write m.mode dec.imm ≡ true) =
        elim may [ inl r ↦ inl r | inr w ↦ inr (lets.1.1 (reaches.0, w)) ] in
      let done =
        csr-Exchanges d m s.op fits o new e s.sound.x0 (lets.0.1 reaches.0) writes
          (csr_value-Writes m o (m.csrf dec.imm) kind) in
      record {
        value = done.value;
        returns = done.returns;
        holds = Exchanges-Does o done.value t e reaches done.holds;
      }

  -- What the code finds where the level does not reach the register.
  unreached_closed :
      (o : SysOp)
      → ¬ ReachesCsr o m.cur_state.dec (view m)
      → can_write m.mode m.cur_state.dec.imm ≡ false
  unreached_closed o away = elim (Bool-cases (can_write m.mode m.cur_state.dec.imm)) [
    | inl w ↦
        let (level, writable) = (access d m.mode m.cur_state.dec.imm).1.0 w in
        absurd (away (level, inr writable))
    | inr w ↦ w
  ]

  unreached-Stops :
      (o : SysOp)
      → IsExchange o m.cur_state.dec
      → ¬ ReachesCsr o m.cur_state.dec (view m)
      → Stops o m.cur_state.dec.rs1 (can_read m.mode m.cur_state.dec.imm)
  unreached-Stops SysOp.csrrw kind away = tt
  unreached-Stops SysOp.csrrs kind away = elim (Bool-cases (can_read m.mode m.cur_state.dec.imm)) [
    | inl r ↦
        let level = (access d m.mode m.cur_state.dec.imm).0.0 r in
        elim (Bool-cases (m.cur_state.dec.rs1 == 0)) [
          | inl z ↦ absurd (away (level, inl z))
          | inr z ↦ inr z
        ]
    | inr r ↦ inl r
  ]
  unreached-Stops SysOp.csrrwi kind away = tt
  unreached-Stops SysOp.csrrsi kind away = tt
  unreached-Stops _ kind away = absurd kind

  -- It does not, and `csr` traps before it writes anything.
  unreached-Does :
      (o : SysOp)
      → m.cur_state.dec.tgt ≡ Target.csr
      → m.cur_state.dec.opt ≡ OpType.sys o
      → m.cur_state.dec.imm < 4096
      → IsExchange o m.cur_state.dec
      → ¬ ReachesCsr o m.cur_state.dec (view m)
      → Returns (Does m) (csr m)
  unreached-Does o t e fits kind away =
      rw (csr-unreached d m s.op fits (unreached_closed o away) o e (unreached-Stops o kind away)) (
        raised-Does d m s Exception.illegal _ (Raises.is_unreached o t e away)
          (illegal-Traps d m s.sound))

  pub csr-Does :
      m.cur_state.dec.tgt ≡ Target.csr
      → Matches Target.csr m.cur_state.dec
      → ((o : SysOp) → m.cur_state.dec.opt ≡ OpType.sys o → IsExchange o m.cur_state.dec)
      → Returns (Does m) (csr m)
  csr-Does t (o, e, fits) kind = elim (ReachesCsr-cases o m.cur_state.dec (view m)) [
    | inl r ↦ reached-Does o t e fits (kind o e) r
    | inr r ↦ unreached-Does o t e fits (kind o e) r
  ]
