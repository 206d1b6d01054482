-- ===== src/Iss/Manual/Interrupts.antt =====
-- `interrupt_pending` does to the hart what follows each of its instructions.
use riscv32_sim.Base.{◌+◌, ◌≡◌, refl, ◌∙◌, true, ◌&&◌, ltb, inl, inr, Bool-cases, Returns}
use riscv32_sim.Base.Bitset.{with_bit}
use riscv32_sim.Common.{Externals, IsDocumented}
use riscv32_sim.Iss.Exec.{interrupt_pending}
use riscv32_sim.Iss.Manual.{view}
use riscv32_sim.Iss.Manual.Accesses.{number_at-bytes_of}
use riscv32_sim.Iss.Manual.Traps.{is_due, interrupted, settled}
use riscv32_sim.Iss.Sound.{IsSound}
use riscv32_sim.Iss.Sound.Status.{with_bit-lt_7}
use riscv32_sim.Iss.Sound.Writes.{csr_written-IsSound}
use riscv32_sim.Iss.State.{Model}
use riscv32_sim.Iss.State.Updates.{csr_written}
use riscv32_sim.Iss.Trap.{pc_case}
use riscv32_sim.Iss.Trap.Exceptions.{entered_by}
use riscv32_sim.Iss.Trap.Interrupts.{
  timer_taken, acknowledged, tvec_apart, set_pending-timer, trap-timer,
}
use riscv32_sim.Iss.Trap.Numbers.{interrupt_number_timer, trap_base}
use riscv32_sim.Memory.Router
use riscv32_sim.Memory.Words.{read64-number_at}
use riscv32_sim.TrapCause.{int_timer_m}

module _ ⦃x : Externals⦄ where
  -- The interrupt check looks at the same bytes.
  is_due-view :
      (m : Model)
      → IsSound m
      → (m.opts.mti_enabled
          && ltb (Router.read64 m.mem m.opts.mtimecmp) (Router.read64 m.mem m.opts.mtime))
        ≡ is_due (view m)
  unfolding Router.read64
  is_due-view m s =
      let bytes = s.mem_bytes.page_bytes in
      let comparand =
        read64-number_at m.mem.page m.opts.mtimecmp bytes s.mtimecmp_fits
        ∙ number_at-bytes_of m.mem m.opts.mtimecmp 8 s.mtimecmp_fits in
      let time =
        read64-number_at m.mem.page m.opts.mtime bytes s.mtime_fits
        ∙ number_at-bytes_of m.mem m.opts.mtime 8 s.mtime_fits in
      rw (comparand, time)

module _ ⦃x : Externals⦄ (d : IsDocumented x) where
  view-interrupted :
      (m : Model) → view (entered_by true (acknowledged m) int_timer_m) ≡ interrupted (view m)
  unfolding pc_case
  view-interrupted m =
      let tvec_kept : (acknowledged m).csrf (trap_base m.mode.m + 0x05)
          ≡ m.csrf (trap_base m.mode.m + 0x05) =
        tvec_apart m.csrf m.mode.m _ _ in
      rw (interrupt_number_timer d, tvec_kept, d.pc_value-update-set m.cur_state.pc _) refl

  pub interrupt_pending-settled :
      (m : Model) → IsSound m → Returns (λ m'. view m' ≡ settled (view m)) (interrupt_pending m)
  unfolding interrupt_pending
  interrupt_pending-settled m s =
      let v = with_bit (m.csrf 0x344) 7 true in
      let m' = csr_written m 0x344 v in
      let s' =
        csr_written-IsSound m 0x344 v (with_bit-lt_7 (m.csrf 0x344) true (s.csr_fits 0x344)) s in
      elim (Bool-cases (is_due (view m))) [
        | inl e ↦
            rw
              (
                is_due-view m s,
                e,
                set_pending-timer d m,
                trap-timer d m' s'.mode_set s'.pc_fits (s'.csr_fits _),
              )
              (elim (Bool-cases (timer_taken m')) [
                | inl t ↦ rw t (record { value = _; returns = refl; holds = view-interrupted m' })
                | inr t ↦ rw t (record { value = _; returns = refl; holds = refl })
              ])
        | inr e ↦ rw (is_due-view m s, e) (record { value = m; returns = refl; holds = refl })
      ]
