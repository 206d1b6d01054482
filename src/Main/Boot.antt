-- ===== src/Main/Boot.antt =====
-- Where the program (riscv32-sim/src/main.cpp) starts a file, over the reference hart.
use riscv32_sim.Base.{
  ℕ, ◌≡◌, refl, ap₂, ◌∙◌, fun_ext, arith, false, none, ok, inl, inr, ◌==◌, Bool-cases, Returns,
}
use riscv32_sim.Base.Word.{u32}
use riscv32_sim.Common.{Externals, IsDocumented, HartState, Op}
use riscv32_sim.Iss.Manual.{Executes, Reaches, view}
use riscv32_sim.Iss.Manual.Traps.{Exception, trapped, settled}
use riscv32_sim.Iss.Manual.State.{Hart}
use riscv32_sim.Iss.Sound.Starts.{IsProgram, symbol_found}
use riscv32_sim.Iss.Start.{set_up, new_model}
use riscv32_sim.Loader.{progbit_ranges}
use riscv32_sim.Loader.Image.{Elf, Elfio, load_elf, open_elf, entry}
use riscv32_sim.Loader.Segments.{image, load_segments-Holds, open_elf-IsSupported}
use riscv32_sim.Memory.Accessor
use riscv32_sim.Zicsr.Mode.{machine, set_mode}
use riscv32_sim.Memory.Router
use riscv32_sim.Memory.Router.{Router}
use riscv32_sim.Options.{Options}

-- The word of the host stays where it is.
trapped-tohost : (e : Exception) (h : Hart) → (trapped e h).tohost ≡ h.tohost
trapped-tohost Exception.illegal h = refl
trapped-tohost Exception.breakpoint h = refl
trapped-tohost Exception.call h = elim (Bool-cases (h.regs 17 == 93)) [
  | inl e ↦ rw e refl
  | inr e ↦ rw e refl
]

Executes-tohost : {o : Op} {h h' : Hart} → Executes o h h' → h'.tohost ≡ h.tohost
Executes-tohost (Executes.computes a t e j k) = refl
Executes-tohost (Executes.jumps a t e j) = refl
Executes-tohost (Executes.loads l t e) = refl
Executes-tohost (Executes.stores s t e) = refl
Executes-tohost (Executes.branches b t e taken) = refl
Executes-tohost (Executes.passes b t e taken) = refl
Executes-tohost (Executes.exchanges s t e reaches) = refl
Executes-tohost (Executes.returns t) = refl
Executes-tohost {h = h} (Executes.traps e r) = trapped-tohost e h

settled-tohost : (h : Hart) → (settled h).tohost ≡ h.tohost
settled-tohost h = ground arith

module _ ⦃x : Externals⦄ where
  -- The hart at the start of a file: the bytes of its segments, its code and its entry point, beside
  -- the timer that the options place, in machine mode and with zero in every register.
  abbrev pub booted : Elfio → Options → Elf → ℕ → Hart
  booted elfio opt e tohost_addr = record {
    platform = record {
      code = progbit_ranges elfio.sht_progbits elfio.shf_execinstr e.sections;
      mtime_register = opt.mtime;
      mtimecmp_register = opt.mtimecmp;
      timer_enabled = opt.mti_enabled;
      mtime = opt.mtime;
      mtimecmp = opt.mtimecmp;
    };
    regs = λ i. 0;
    bytes = λ a. image elfio e.segments (λ c. 0) (u32 a);
    pc = u32 e.get_entry;
    csrs = λ i. 0;
    mode = machine;
    tohost = u32 tohost_addr;
    halted = false;
  }

module _ ⦃x : Externals⦄ (d : IsDocumented x) (elfio : Elfio) (opt : Options) (e : Elf)
    (p : IsProgram elfio opt e) where
  pub set_up-booted :
      (new_hart : ℕ → HartState)
      → ((v : ℕ) → x.pc_value (new_hart v).pc ≡ v)
      → Returns (λ m. view m ≡ booted elfio opt e p.tohost_addr) (set_up elfio new_hart opt)
  unfolding set_up load_elf new_model set_mode Router.init Accessor.read8 entry
  set_up-booted new_hart hart_pc =
      let opened : open_elf elfio opt.target ≡ ok e =
        (open_elf-IsSupported elfio opt.target e).1 (p.readable, p.supported) in
      let empty = Router.init (λ key. none) opt.mtime opt.mtimecmp in
      let loaded = load_segments-Holds elfio d empty e.segments p.placed in
      rw (opened, loaded.returns, symbol_found e opt.tohost_sym p.tohost_addr p.tohost_found)
        (record {
          value = _;
          returns = refl;
          holds =
              rw (loaded.holds.mtime_addr, loaded.holds.mtimecmp_addr)
                (ap₂
                  (λ (b : ℕ → ℕ) (a : ℕ). record (booted elfio opt e p.tohost_addr) {
                    bytes = b;
                    pc = a;
                  })
                  (fun_ext (λ a. loaded.holds.bytes (u32 a) (omega arith)))
                  (hart_pc (u32 e.get_entry)));
        })

module _ ⦃x : Externals⦄ where
  pub Reaches-tohost : {n : ℕ} {h h' : Hart} → Reaches n h h' → h'.tohost ≡ h.tohost
  Reaches-tohost Reaches.spent = refl
  Reaches-tohost (Reaches.halts e) = refl
  Reaches-tohost (Reaches.goes {h' = h'} f e r) =
      Reaches-tohost r ∙ settled-tohost h' ∙ Executes-tohost e
