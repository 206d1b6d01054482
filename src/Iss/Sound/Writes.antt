-- ===== src/Iss/Sound/Writes.antt =====
-- The elementary updates keep the invariant.
use riscv32_sim.Base.{ℕ, Bool, ◌^◌, ◌<◌, refl, arith, Bool-cases, inl, inr}
use riscv32_sim.Common.{Externals, IsDocumented, HartState}
use riscv32_sim.Iss.State.{Model, set_pc, update_pc}
use riscv32_sim.Iss.State.Updates.{csr_written, gpr_written}
use riscv32_sim.Iss.Sound.{IsOp, IsMemory, IsSound, IsStaged}
use riscv32_sim.Memory.Router
use riscv32_sim.Memory.Router.{Router, in_register}
use riscv32_sim.Memory.Router.Laws.{written}
use riscv32_sim.Zicsr.Mode.{Privilege, set_mode}
use riscv32_sim.Memory.Words.{write8-IsBytes, write16-IsBytes, write32-IsBytes}

module _ ⦃x : Externals⦄ where
  pub csr_written-IsSound :
      (m : Model) (i v : ℕ) → v < 2 ^ 32 → IsSound m → IsSound (csr_written m i v)
  csr_written-IsSound m i v h s = record {
    mode_set = s.mode_set;
    gpr_fits = s.gpr_fits;
    x0 = s.x0;
    csr_fits = λ j. ground (arith, s.csr_fits j);
    mem_bytes = s.mem_bytes;
    pc_fits = s.pc_fits;
    tohost_fits = s.tohost_fits;
    mtime_fits = s.mtime_fits;
    mtimecmp_fits = s.mtimecmp_fits;
  }

  pub gpr_written-IsSound :
      (m : Model) (i v : ℕ) → v < 2 ^ 32 → IsSound m → IsSound (gpr_written m i v)
  gpr_written-IsSound m i v h s = record {
    mode_set = s.mode_set;
    gpr_fits = λ j. ground (arith, s.gpr_fits j);
    x0 = ground (arith, s.x0);
    csr_fits = s.csr_fits;
    mem_bytes = s.mem_bytes;
    pc_fits = s.pc_fits;
    tohost_fits = s.tohost_fits;
    mtime_fits = s.mtime_fits;
    mtimecmp_fits = s.mtimecmp_fits;
  }

  -- What an instruction does to the hart's own state alone.
  pub cur_state-IsSound :
      (m : Model) (c : HartState)
      → x.pc_value c.pc < 2 ^ 32
      → IsSound m
      → IsSound (record m { cur_state = c })
  cur_state-IsSound m c h s = record {
    mode_set = s.mode_set;
    gpr_fits = s.gpr_fits;
    x0 = s.x0;
    csr_fits = s.csr_fits;
    mem_bytes = s.mem_bytes;
    pc_fits = h;
    tohost_fits = s.tohost_fits;
    mtime_fits = s.mtime_fits;
    mtimecmp_fits = s.mtimecmp_fits;
  }

  pub mem-IsSound :
      (m : Model) (r : Router) (done : Bool)
      → IsMemory r
      → IsSound m
      → IsSound (record m { mem = r; is_done = done })
  mem-IsSound m r done h s = record {
    mode_set = s.mode_set;
    gpr_fits = s.gpr_fits;
    x0 = s.x0;
    csr_fits = s.csr_fits;
    mem_bytes = h;
    pc_fits = s.pc_fits;
    tohost_fits = s.tohost_fits;
    mtime_fits = s.mtime_fits;
    mtimecmp_fits = s.mtimecmp_fits;
  }

  pub mode-IsSound :
      (m : Model) (p : Privilege) → IsSound m → IsSound (record m { mode = set_mode p })
  unfolding set_mode
  mode-IsSound m p s = record {
    mode_set = refl;
    gpr_fits = s.gpr_fits;
    x0 = s.x0;
    csr_fits = s.csr_fits;
    mem_bytes = s.mem_bytes;
    pc_fits = s.pc_fits;
    tohost_fits = s.tohost_fits;
    mtime_fits = s.mtime_fits;
    mtimecmp_fits = s.mtimecmp_fits;
  }

module _ ⦃x : Externals⦄ where
  pub csr_written-IsStaged :
      (m : Model) (i v : ℕ) → v < 2 ^ 32 → IsStaged m → IsStaged (csr_written m i v)
  csr_written-IsStaged m i v h s = record {
    sound = csr_written-IsSound m i v h s.sound;
    op = s.op;
    next_fits = s.next_fits;
  }

  pub gpr_written-IsStaged :
      (m : Model) (i v : ℕ) → v < 2 ^ 32 → IsStaged m → IsStaged (gpr_written m i v)
  gpr_written-IsStaged m i v h s = record {
    sound = gpr_written-IsSound m i v h s.sound;
    op = s.op;
    next_fits = s.next_fits;
  }

  pub mem-IsStaged :
      (m : Model) (r : Router) (done : Bool)
      → IsMemory r
      → IsStaged m
      → IsStaged (record m { mem = r; is_done = done })
  mem-IsStaged m r done h s = record {
    sound = mem-IsSound m r done h s.sound;
    op = s.op;
    next_fits = s.next_fits;
  }

module _ ⦃x : Externals⦄ (d : IsDocumented x) where
  -- Staging the next program counter, also where none was staged.
  pub set_pc-IsStaged :
      (m : Model) (v : ℕ) → v < 2 ^ 32 → IsSound m → IsOp m.cur_state.dec → IsStaged (set_pc m v)
  set_pc-IsStaged m v h s op = record {
    sound =
        cur_state-IsSound m (set_pc m v).cur_state (rw (d.pc_value-set m.cur_state.pc v) s.pc_fits)
          s;
    op = op;
    next_fits = rw (d.pc_value-update-set m.cur_state.pc v) h;
  }

  -- The staged program counter becomes current.
  pub update_pc-IsSound : (m : Model) → IsStaged m → IsSound (update_pc m)
  update_pc-IsSound m s = cur_state-IsSound m (update_pc m).cur_state s.next_fits s.sound

  pub write32-IsMemory :
      (r : Router) (a w : ℕ) → a < 2 ^ 32 → IsMemory r → IsMemory (Router.write32 r a w)
  unfolding Router.write32
  write32-IsMemory r a w h b = record {
    page_bytes = write32-IsBytes d r.page a w h b.page_bytes;
    mtime_bytes = b.mtime_bytes;
    mtimecmp_bytes = b.mtimecmp_bytes;
  }

  pub write16-IsMemory :
      (r : Router) (a w : ℕ) → a < 2 ^ 32 → IsMemory r → IsMemory (Router.write16 r a w)
  unfolding Router.write16
  write16-IsMemory r a w h b = record {
    page_bytes = write16-IsBytes d r.page a w h b.page_bytes;
    mtime_bytes = b.mtime_bytes;
    mtimecmp_bytes = b.mtimecmp_bytes;
  }

  pub written-IsMemory :
      (r : Router) (a v : ℕ) → a < 2 ^ 32 → v < 2 ^ 8 → IsMemory r → IsMemory (written r a v)
  unfolding written
  written-IsMemory r a v ha hv b = elim (Bool-cases (in_register r.mtime_addr a)) [
    | inl e ↦ rw e (record {
      page_bytes = b.page_bytes;
      mtime_bytes = λ i. ground (arith, b.mtime_bytes i);
      mtimecmp_bytes = b.mtimecmp_bytes;
    })
    | inr e ↦ elim (Bool-cases (in_register r.mtimecmp_addr a)) [
      | inl f ↦
          rw (e, f)
            (record {
              page_bytes = b.page_bytes;
              mtime_bytes = b.mtime_bytes;
              mtimecmp_bytes = λ i. ground (arith, b.mtimecmp_bytes i);
            })
      | inr f ↦
          rw (e, f)
            (record {
              page_bytes = write8-IsBytes d r.page a v ha hv b.page_bytes;
              mtime_bytes = b.mtime_bytes;
              mtimecmp_bytes = b.mtimecmp_bytes;
            })
    ]
  ]
