-- ===== src/Iss/Manual/Steps.antt =====
-- One instruction of the simulator is one instruction of the reference hart.
use riscv32_sim.Base.{
  ℕ, ◌+◌, ◌%◌, ◌^◌, ◌≡◌, refl, ap, sym, subst, ◌∙◌, Bool, true, false, not, ◌==◌, if◌then◌else◌,
  Returns,
}
use riscv32_sim.Base.Bits.{bit_and_low}
use riscv32_sim.Common.{Externals, IsDocumented, Op, Target}
use riscv32_sim.Iss.Exec.{
  fetch, exec, dispatch, step, is_valid_pc, instr_length, is_address_initialized,
}
use riscv32_sim.Base.Word.{u32}
use riscv32_sim.Iss.Manual.{Executes, view, fetched}
use riscv32_sim.Iss.Manual.State.{following}
use riscv32_sim.Iss.Manual.Plain.{IsNamed, HasResult, KeepsAway, IsPermitted, IsPlain}
use riscv32_sim.Iss.Manual.System.{handle_mret-Does, illegal-Does, breakpoint-Does, call-Does}
use riscv32_sim.Iss.Manual.CsrAccesses.{csr-Does}
use riscv32_sim.Iss.Manual.Accesses.{number_at-bytes_of}
use riscv32_sim.Iss.Manual.Handlers.{
  next_pc, Does, handle_load-Does, store-Does, handle_branch-Does, handle_alu-Does,
}
use riscv32_sim.Iss.Sound.{Matches, IsDecoder, IsSound, IsStaged}
use riscv32_sim.Iss.Sound.Handlers.{IsDefined}
use riscv32_sim.Iss.Sound.Steps.{decoded, decoded-IsStaged}
use riscv32_sim.Iss.State.{Model, pc_of, set_pc, update_pc}
use riscv32_sim.Memory.Router
use riscv32_sim.Memory.Words.{read32-number_at}
use riscv32_sim.Memory.Bytes.{number_at}

subst₂ {ℓ κ ι} :
    {A : Type ℓ} {B : Type κ} (P : A → B → Type ι) {a a' : A} {b b' : B}
    → a ≡ a'
    → b ≡ b'
    → P a b
    → P a' b'
subst₂ P {a} {a'} {b} {b'} e f p = subst (λ c. P c b') e (subst (P a) f p)

if_not : (b : Bool) (u v : Op) → (if not b then u else v) ≡ (if b then v else u)
if_not true u v = refl
if_not false u v = refl

module _ ⦃x : Externals⦄ (d : IsDocumented x) where
  dispatch-Does :
      (m : Model) (t : Target)
      → m.cur_state.dec.tgt ≡ t
      → Matches t m.cur_state.dec
      → IsNamed t
      → IsPermitted m.cur_state.dec (view m)
      → IsDefined m
      → KeepsAway m.cur_state.dec (view m)
      → IsStaged m
      → next_pc m ≡ following m.cur_state.dec (view m)
      → Returns (Does m) (dispatch t m)
  unfolding dispatch
  dispatch-Does m Target.store t h p a c o s e = store-Does d m s e t h o
  dispatch-Does m Target.load t h p a c o s e = handle_load-Does d m s e t h o
  dispatch-Does m Target.alu t h p a c o s e = handle_alu-Does d m s e t h c
  dispatch-Does m Target.branch t h p a c o s e = handle_branch-Does d m s e t h
  dispatch-Does m Target.csr t h p a c o s e = csr-Does d m s e t h (a.0 t)
  dispatch-Does m Target.mret t h p a c o s e = handle_mret-Does d m t
  dispatch-Does m Target.illegal t h p a c o s e = illegal-Does d m s t
  dispatch-Does m Target.ebreak t h p a c o s e = breakpoint-Does d m s t
  dispatch-Does m Target.ecall t h p a c o s e = call-Does d m s t
  dispatch-Does m (Target.unnamed n) t h p a c o s e = absurd p

  fetch-fetched : (m : Model) → IsSound m → (fetch m).cur_state.dec ≡ fetched (view m)
  unfolding fetch Router.read32
  fetch-fetched m s =
      let word = read32-number_at m.mem.page (pc_of m) s.mem_bytes.page_bytes s.pc_fits in
      let bytes = number_at-bytes_of m.mem (pc_of m) 4 s.pc_fits in
      let w = number_at (view m).bytes (pc_of m) 4 in
      rw (word, bytes, bit_and_low 2 w) (if_not (w % 2 ^ 2 == 3) (x.decode16 w) (x.decode w))

  view-decoded : (m : Model) → view (decoded m) ≡ view m
  unfolding fetch
  view-decoded m = ap (λ (a : ℕ). record (view m) { pc = a }) (d.pc_value-set m.cur_state.pc _)

  pub plain-IsDefined : (m : Model) → IsSound m → IsPlain (view m) → IsDefined (decoded m)
  plain-IsDefined m s p = subst₂ HasResult (sym (fetch-fetched m s)) (sym (view-decoded m)) p.result

  next_pc-set_pc :
      (m : Model)
      → let m' = set_pc m (u32 (pc_of m + instr_length m.cur_state.dec)) in
        next_pc m' ≡ following m.cur_state.dec (view m')
  next_pc-set_pc m =
      let v = u32 (pc_of m + instr_length m.cur_state.dec) in
      rw (d.pc_value-update-set m.cur_state.pc v, d.pc_value-set m.cur_state.pc v)

  valid-code :
      (m : Model)
      → is_address_initialized m.allowed_pcs (pc_of m) ≡ true
      → is_valid_pc m (pc_of m) ≡ true
  unfolding is_valid_pc
  valid-code m h = h

  valid-decoded :
      (m : Model) → is_valid_pc (decoded m) (pc_of (decoded m)) ≡ is_valid_pc m (pc_of m)
  unfolding fetch is_valid_pc
  valid-decoded m = ap (is_valid_pc m) (d.pc_value-set m.cur_state.pc _)

  -- From a sound state, with libraries as documented and a decoder of the instruction set, `step`
  -- returns, and the simulator's state, its staged program counter made current, is one to which
  -- the reference hart, which executes the instructions of the RISC-V manual and takes traps as
  -- the simulator does, leads by the instruction at the program counter: its registers, its
  -- control registers and privilege level, the bytes of its memory, its program counter, and its
  -- end by a store at the address of the host or a call with 93 in a7. The instruction is in the
  -- program, its target has an enumerator and C++ defines its arithmetic, it is none that clears
  -- bits of a control register or sets none of them by csrrsi, no byte access to a timer register,
  -- and a return from a trap in machine mode only.
  pub step-Executes :
      IsDecoder x
      → (m : Model) → IsSound m
      → IsPlain (view m)
      → Returns (λ m₁. Executes (fetched (view m)) (view m) (view (update_pc m₁))) (step m)
  unfolding step exec
  step-Executes k m s p =
      let m₀ = decoded m in
      let o = m₀.cur_state.dec in
      let staged = decoded-IsStaged d k m s in
      let same_op : fetched (view m) ≡ o = sym (fetch-fetched m s) in
      let same_view : view m ≡ view m₀ = sym (view-decoded m) in
      let valid : is_valid_pc m₀ (pc_of m₀) ≡ true = valid-decoded m ∙ valid-code m p.valid in
      let done =
        dispatch-Does m₀ o.tgt refl staged.op.matches (subst (λ o. IsNamed o.tgt) same_op p.named)
          (subst₂ IsPermitted same_op same_view p.permitted)
          (subst₂ HasResult same_op same_view p.result) (subst₂ KeepsAway same_op same_view p.away)
          staged (next_pc-set_pc (fetch m)) in
      rw valid (record {
        value = done.value;
        returns = done.returns;
        holds =
            subst₂ (λ o h. Executes o h (view (update_pc done.value))) (sym same_op) (sym same_view)
              done.holds;
      })
