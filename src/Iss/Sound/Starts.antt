-- ===== src/Iss/Sound/Starts.antt =====
-- The invariant at the start of a program.
use Prim.Native.String.{String}
use riscv32_sim.Base.{ℕ, ◌^◌, ◌<◌, ◌≡◌, refl, arith, List, ok, none, some, Returns, Returns-bind}
use riscv32_sim.Base.Word.{u32}
use riscv32_sim.Common.{Externals, IsDocumented, HartState}
use riscv32_sim.Iss.Sound.{IsMemory, IsSound}
use riscv32_sim.Loader.Image.{Segment, Elf, Elfio, symbol, entry, load_elf, open_elf}
use riscv32_sim.Loader.Segments.{
  IsPlaced, HoldBytes, Holds, IsSupported, image, image-bytes, open_elf-IsSupported,
  load_segments-Holds,
}
use riscv32_sim.Memory.Accessor.{SparseMemory}
use riscv32_sim.Memory.Accessor
use riscv32_sim.Memory.Router
use riscv32_sim.Memory.Router.{Router}
use riscv32_sim.Options.{Options}
use riscv32_sim.Zicsr.Mode.{set_mode}
use riscv32_sim.Iss.Start.{new_model, set_up}

pub symbol_found :
    (e : Elf) (str : String) (v : ℕ) → e.get_symbol str ≡ some v → symbol e str ≡ ok (u32 v)
unfolding symbol
symbol_found e str v h = rw (h, symbol)

module _ ⦃x : Externals⦄ where
  Holds-IsMemory :
      (elfio : Elfio) (r r' : Router) (segments : List Segment)
      → HoldBytes segments
      → IsMemory r
      → Holds r (image elfio segments (λ c. Accessor.read8 r.page c)) r'
      → IsMemory r'
  Holds-IsMemory elfio r r' segments small b h = record {
    page_bytes =
        λ a lt. rw (h.bytes a lt) (image-bytes elfio segments _ a small (b.page_bytes a lt));
    mtime_bytes = λ i. rw h.mtime (b.mtime_bytes i);
    mtimecmp_bytes = λ i. rw h.mtimecmp (b.mtimecmp_bytes i);
  }

  empty-IsMemory : (a b : ℕ) → IsMemory (Router.init (λ key. none) a b)
  unfolding Router.init Accessor.read8
  empty-IsMemory a b = record {
    page_bytes = λ i h. omega arith;
    mtime_bytes = λ i. omega arith;
    mtimecmp_bytes = λ i. omega arith;
  }

-- What a file must be for a start: it is there and supported, its loadable segments lie in the
-- address space and end where pages end, its segments hold bytes, and it has the symbol that the options name.
pub record IsProgram (elfio : Elfio) (opt : Options) (e : Elf) : Type 0 where
  pub readable : elfio.load opt.target ≡ some e
  pub supported : IsSupported elfio e
  pub placed : IsPlaced elfio e.segments
  pub bytes : HoldBytes e.segments
  pub tohost_addr : ℕ
  pub tohost_found : e.get_symbol opt.tohost_sym ≡ some tohost_addr

module _ ⦃x : Externals⦄ (d : IsDocumented x) (elfio : Elfio) (opt : Options) (e : Elf)
    (p : IsProgram elfio opt e) where
  load_elf-IsMemory :
      Returns
        (λ r. (r.0 ≡ e) × IsMemory r.1)
        (load_elf elfio opt.target (Router.init (λ key. none) opt.mtime opt.mtimecmp))
  unfolding load_elf
  load_elf-IsMemory =
      let opened : open_elf elfio opt.target ≡ ok e =
        (open_elf-IsSupported elfio opt.target e).1 (p.readable, p.supported) in
      let empty = Router.init (λ key. none) opt.mtime opt.mtimecmp in
      let loaded = load_segments-Holds elfio d empty e.segments p.placed in
      rw (opened, loaded.returns)
        (record {
          value = (e, loaded.value);
          returns = refl;
          holds = (
            refl,
            Holds-IsMemory elfio empty loaded.value e.segments p.bytes
                (empty-IsMemory opt.mtime opt.mtimecmp) loaded.holds,
          );
        })

  new_model-IsSound :
      (new_hart : ℕ → HartState) (r : Router)
      → ((v : ℕ) → x.pc_value (new_hart v).pc ≡ v)
      → opt.mtime < 2 ^ 32
      → opt.mtimecmp < 2 ^ 32
      → IsMemory r
      → Returns IsSound (new_model elfio new_hart opt e r)
  unfolding new_model entry set_mode
  new_model-IsSound new_hart r hart_pc h₁ h₂ b =
      rw (symbol_found e opt.tohost_sym p.tohost_addr p.tohost_found) (record {
        value = _;
        returns = refl;
        holds = record {
          mode_set = refl;
          gpr_fits = λ i. omega arith;
          x0 = refl;
          csr_fits = λ i. omega arith;
          mem_bytes = b;
          pc_fits = omega (arith, hart_pc (u32 e.get_entry));
          tohost_fits = omega arith;
          mtime_fits = h₁;
          mtimecmp_fits = h₂;
        };
      })

  pub set_up-IsSound :
      (new_hart : ℕ → HartState)
      → ((v : ℕ) → x.pc_value (new_hart v).pc ≡ v)
      → opt.mtime < 2 ^ 32
      → opt.mtimecmp < 2 ^ 32
      → Returns IsSound (set_up elfio new_hart opt)
  unfolding set_up
  set_up-IsSound new_hart hart_pc h₁ h₂ =
      Returns-bind (λ r. (r.0 ≡ e) × IsMemory r.1) IsSound _ _ load_elf-IsMemory
        (λ r h. rw h.0 (new_model-IsSound new_hart r.1 hart_pc h₁ h₂ h.1))
