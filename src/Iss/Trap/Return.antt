-- ===== src/Iss/Trap/Return.antt =====
-- The return from a trap, and a timer interrupt that is followed by its return.
use riscv32_sim.Base.{
  ℕ, ◌+◌, ◌*◌, ◌/◌, ◌^◌, ◌<◌, ◌≡◌, refl, ap, ◌∙◌, sym, subst, arith, Bool, true, false, ok, ◌>>=◌,
  Returns,
}
use riscv32_sim.Base.Bitset.{bit, with_bit}
use riscv32_sim.Base.Word.{u32}
use riscv32_sim.Common.{Externals, IsDocumented}
use riscv32_sim.Iss.State.{Model, pc_of, set_pc}
use riscv32_sim.Iss.State.Updates.{csr_written, write_csr-csr_written, read-csr}
use riscv32_sim.Iss.Trap.{handle_mret, trap, privilege_of, pc_case}
use riscv32_sim.Iss.Trap.Exceptions.{entered_by}
use riscv32_sim.Iss.Trap.Interrupts.{timer_taken, acknowledged, mstatus_entered, trap-timer}
use riscv32_sim.TrapCause.{int_timer_m}
use riscv32_sim.Zicsr.Mode.{set_mode, machine}

-- `mstatus` after the return from a trap.
abbrev pub mstatus_left : ℕ → ℕ
mstatus_left s = with_bit (with_bit (with_bit (with_bit s 3 (bit s 7)) 7 true) 11 true) 12 true

bit_3-with_7 : (w : ℕ) (v : Bool) → bit (with_bit w 7 v) 3 ≡ bit w 3
bit_3-with_7 w v = ground arith

bit_3-with_11 : (w : ℕ) (v : Bool) → bit (with_bit w 11 v) 3 ≡ bit w 3
bit_3-with_11 w v = ground arith

bit_3-with_12 : (w : ℕ) (v : Bool) → bit (with_bit w 12 v) 3 ≡ bit w 3
bit_3-with_12 w v = ground arith

bit_3-with_3 : (w : ℕ) (v : Bool) → bit (with_bit w 3 v) 3 ≡ v
bit_3-with_3 w true = ground arith
bit_3-with_3 w false = ground arith

bit_7-with_7 : (w : ℕ) (v : Bool) → bit (with_bit w 7 v) 7 ≡ v
bit_7-with_7 w true = ground arith
bit_7-with_7 w false = ground arith

bit_7-with_3 : (w : ℕ) (v : Bool) → bit (with_bit w 3 v) 7 ≡ bit w 7
bit_7-with_3 w v = ground arith

bit_11-with_3 : (w : ℕ) (v : Bool) → bit (with_bit w 3 v) 11 ≡ bit w 11
bit_11-with_3 w v = ground arith

bit_12-with_3 : (w : ℕ) (v : Bool) → bit (with_bit w 3 v) 12 ≡ bit w 12
bit_12-with_3 w v = ground arith

bit_11-with_7 : (w : ℕ) (v : Bool) → bit (with_bit w 7 v) 11 ≡ bit w 11
bit_11-with_7 w v = ground arith

bit_12-with_7 : (w : ℕ) (v : Bool) → bit (with_bit w 7 v) 12 ≡ bit w 12
bit_12-with_7 w v = ground arith

bit_11-with_12 : (w : ℕ) (v : Bool) → bit (with_bit w 12 v) 11 ≡ bit w 11
bit_11-with_12 w v = ground arith

bit_11-with_11 : (w : ℕ) → bit (with_bit w 11 true) 11 ≡ true
bit_11-with_11 w = ground arith

bit_12-with_12 : (w : ℕ) → bit (with_bit w 12 true) 12 ≡ true
bit_12-with_12 w = ground arith

-- On entry the interrupt enable is stacked, and the level before is machine mode.
mstatus_entered_fields :
    (s : ℕ)
    → (bit (mstatus_entered s) 7 ≡ bit s 3)
      × (bit (mstatus_entered s) 11 ≡ true)
      × (bit (mstatus_entered s) 12 ≡ true)
mstatus_entered_fields s =
    let s₁ = with_bit s 11 true in
    let s₂ = with_bit s₁ 12 true in
    let s₃ = with_bit s₂ 7 (bit s₂ 3) in
    (
      bit_7-with_3 s₃ false
          ∙ bit_7-with_7 s₂ (bit s₂ 3)
          ∙ bit_3-with_12 s₁ true
          ∙ bit_3-with_11 s true,
      bit_11-with_3 s₃ false
          ∙ bit_11-with_7 s₂ (bit s₂ 3)
          ∙ bit_11-with_12 s₁ true
          ∙ bit_11-with_11 s,
      bit_12-with_3 s₃ false ∙ bit_12-with_7 s₂ (bit s₂ 3) ∙ bit_12-with_12 s₁,
    )

-- On return the interrupt enable is what was stacked.
pub bit_3-mstatus_left : (s : ℕ) → bit (mstatus_left s) 3 ≡ bit s 7
bit_3-mstatus_left s =
    let s₁ = with_bit s 3 (bit s 7) in
    let s₂ = with_bit s₁ 7 true in
    let s₃ = with_bit s₂ 11 true in
    bit_3-with_12 s₃ true ∙ bit_3-with_11 s₂ true ∙ bit_3-with_7 s₁ true ∙ bit_3-with_3 s (bit s 7)

module _ ⦃x : Externals⦄ where
  abbrev pub returned : Model → Model
  returned m =
      let mstat = m.csrf 0x300 in
      record (set_pc (csr_written m 0x300 (mstatus_left mstat)) (m.csrf 0x341)) {
        mode = set_mode (privilege_of (bit mstat 12) (bit mstat 11));
      }

  pub handle_mret-returned : (m : Model) → handle_mret m ≡ ok (returned m)
  unfolding handle_mret
  handle_mret-returned m = rw (
    read-csr m 0x300 (omega arith),
    write_csr-csr_written m 0x300 (mstatus_left (m.csrf 0x300)) (omega arith),
    read-csr (csr_written m 0x300 (mstatus_left (m.csrf 0x300))) 0x341 (omega arith),
  )

  -- What a handler that returns at once leaves.
  pub record IsResumed (m m' : Model) : Type 0 where
    pub same_mode : m'.mode ≡ set_mode machine
    pub same_enable : bit (m'.csrf 0x300) 3 ≡ bit (m.csrf 0x300) 3
    pub same_gpr : m'.regf ≡ m.regf
    pub next : x.pc_value (x.pc_update m'.cur_state.pc) ≡ u32 (pc_of m / 4 * 4 + 4)

module _ ⦃x : Externals⦄ (d : IsDocumented x) where
  abbrev in_machine_mode : Model → Model
  in_machine_mode m = record m { mode = set_mode machine }

  entered-IsResumed :
      (m : Model)
      → IsResumed m (returned (entered_by true (acknowledged (in_machine_mode m)) int_timer_m))
  unfolding set_mode pc_case
  entered-IsResumed m =
      let fields = mstatus_entered_fields (m.csrf 0x300) in
      record {
        same_mode = rw (fields.1, fields.2);
        same_enable = bit_3-mstatus_left (mstatus_entered (m.csrf 0x300)) ∙ fields.0;
        same_gpr = refl;
        next = d.pc_value-update-set _ _;
      }

  trap_timer-machine_mode :
      (m : Model)
      → pc_of m < 2 ^ 32
      → m.csrf 0x305 < 2 ^ 32
      → timer_taken m ≡ true
      → Returns (IsResumed m) (trap (in_machine_mode m) int_timer_m >>= handle_mret)
  unfolding set_mode
  trap_timer-machine_mode m fits tvec_fits taken =
      let m' = in_machine_mode m in
      rw (trap-timer d m' refl fits tvec_fits, taken)
        (record {
          value = returned (entered_by true (acknowledged m') int_timer_m);
          returns = handle_mret-returned _;
          holds = entered-IsResumed m;
        })

  -- In machine mode, with a program counter and a trap vector that are words, a timer interrupt
  -- that is taken and then a return from it at once do return: the mode, the interrupt enable and
  -- the general-purpose registers are as before, and the next program counter is the interrupted
  -- one, cut to a multiple of four, plus four.
  pub trap_timer-handle_mret :
      (m : Model)
      → m.mode ≡ set_mode machine
      → pc_of m < 2 ^ 32
      → m.csrf 0x305 < 2 ^ 32
      → timer_taken m ≡ true
      → Returns (IsResumed m) (trap m int_timer_m >>= handle_mret)
  trap_timer-handle_mret m mode_set fits tvec_fits taken =
      let same : in_machine_mode m ≡ m = ap (λ p. record m { mode = p }) (sym mode_set) in
      subst (λ n. Returns (IsResumed m) (trap n int_timer_m >>= handle_mret)) same
        (trap_timer-machine_mode m fits tvec_fits taken)
