-- ===== src/Loader/Segments.antt =====
-- Which files are refused, and what the segments leave in the memory.
use Prim.Native.String.{String}
use riscv32_sim.Base.{
  ℕ, ◌+◌, ◌-◌, ◌%◌, ◌^◌, ◌≤◌, ◌<◌, ◌≡◌, ◌≢◌, ◌↔◌, refl, ap, ◌∙◌, arith, Bool, true, false, not,
  ◌&&◌, Option, none, some, List, [], ◌∷◌, ok, ltb, leb, ◌==◌, if◌then◌else◌, Bool-cases, inl, inr,
  Returns,
}
use riscv32_sim.Base.Word.{u32}
use riscv32_sim.Common.{Externals, IsDocumented}
use riscv32_sim.Loader.Image.{
  Segment, Elf, Elfio, is_empty, check_elf, check_loaded, open_elf, write_buffer, load_segment,
  load_segments,
}
use riscv32_sim.Memory.Accessor
use riscv32_sim.Memory.Blocks.{written_end, read8-write}
use riscv32_sim.Memory.Router.{Router}

is_empty_iff {ℓ} : {A : Type ℓ} (xs : List A) → (is_empty xs ≡ false) ↔ (xs ≢ [])
is_empty_iff [] = (λ e. cc, λ h. absurd (h refl))
is_empty_iff (x ∷ xs) = (λ e h. cc, λ h. refl)

module _ (elfio : Elfio) where
  -- A 32-bit RISC-V file with a segment.
  abbrev pub IsSupported : Elf → Type 0
  IsSupported e =
      (e.get_class ≡ elfio.elfclass32) × (e.get_machine ≡ elfio.em_riscv) × (e.segments ≢ [])

  check_elf-IsSupported : (e e' : Elf) → (check_elf elfio e ≡ ok e') ↔ ((e ≡ e') × IsSupported e)
  unfolding check_elf
  check_elf-IsSupported e e' = ground (arith, is_empty_iff e.segments)

  check_loaded-IsSupported :
      (o : Option Elf) (e : Elf) → (check_loaded elfio o ≡ ok e) ↔ ((o ≡ some e) × IsSupported e)
  unfolding check_loaded
  check_loaded-IsSupported none e = ground arith
  check_loaded-IsSupported (some e') e = (
    λ h. let c = (check_elf-IsSupported e' e).0 h in (ap some c.0, rw (← c.0) c.1),
    λ h. let same : e' ≡ e = cc in (check_elf-IsSupported e' e).1 (same, rw same h.1),
  )

  -- The first constructor of `loader` succeeds on exactly the files that the library reads, whose
  -- class is 32-bit, whose machine is RISC-V and which have a segment, and it keeps what the
  -- library read; on every other file it throws.
  pub open_elf-IsSupported :
      (file_name : String) (e : Elf)
      → (open_elf elfio file_name ≡ ok e) ↔ ((elfio.load file_name ≡ some e) × IsSupported e)
  unfolding open_elf
  open_elf-IsSupported file_name e = check_loaded-IsSupported (elfio.load file_name) e

-- A segment that lies in the address space and, unless it is empty, ends where a page ends.
abbrev pub Fits : Segment → Type 0
Fits s =
    (s.get_virtual_address < 2 ^ 32)
    × (s.get_virtual_address + s.get_file_size ≤ 2 ^ 32)
    × (0 < s.get_file_size → (s.get_virtual_address + s.get_file_size) % 4096 ≡ 0)

-- All bytes that are the segment's.
abbrev pub HoldBytes : List Segment → Type 0
HoldBytes [] = Unit {0}
HoldBytes (s ∷ segments) =
    ((i : ℕ) → i < s.get_file_size → s.get_data i < 2 ^ 8) × HoldBytes segments

module _ (elfio : Elfio) where
  -- The loadable segments do.
  abbrev pub IsPlaced : List Segment → Type 0
  IsPlaced [] = Unit {0}
  IsPlaced (s ∷ segments) = (s.get_type ≡ elfio.pt_load → Fits s) × IsPlaced segments

  -- The address is one of the segment, which is loadable.
  abbrev pub covers : Segment → ℕ → Bool
  covers s b =
      (s.get_type == elfio.pt_load)
      && leb s.get_virtual_address b
      && ltb b (s.get_virtual_address + s.get_file_size)

  -- The bytes of a segment over a map of bytes.
  unfoldable pub overlay : Segment → (ℕ → ℕ) → ℕ → ℕ
  overlay s f b = if covers s b then s.get_data (b - s.get_virtual_address) else f b

  -- The bytes that the segments make of a map of bytes: a later one hides an earlier one.
  unfoldable pub image : List Segment → (ℕ → ℕ) → ℕ → ℕ
  image [] f b = f b
  image (s ∷ segments) f b = image segments (overlay s f) b

  -- The image at an address depends on the map before at that address alone.
  image_local :
      (segments : List Segment) (f g : ℕ → ℕ) (b : ℕ)
      → f b ≡ g b
      → image segments f b ≡ image segments g b
  unfolding image overlay
  image_local [] f g b h = h
  image_local (s ∷ segments) f g b h =
      image_local segments _ _ b
        (ap (λ (v : ℕ). if covers s b then s.get_data (b - s.get_virtual_address) else v) h)

  pub image-bytes :
      (segments : List Segment) (f : ℕ → ℕ) (b : ℕ)
      → HoldBytes segments
      → f b < 2 ^ 8
      → image segments f b < 2 ^ 8
  unfolding image overlay
  image-bytes [] f b small h = h
  image-bytes (s ∷ segments) f b (small, smalls) h =
      image-bytes segments _ b smalls (ground (arith, small (b - s.get_virtual_address)))

module _ ⦃x : Externals⦄ where
  -- The memory has these bytes, and the registers of the timer are as they were.
  pub record Holds (r : Router) (f : ℕ → ℕ) (r' : Router) : Type 0 where
    pub bytes : (b : ℕ) → b < 2 ^ 32 → Accessor.read8 r'.page b ≡ f b
    pub mtime : r'.mtime ≡ r.mtime
    pub mtimecmp : r'.mtimecmp ≡ r.mtimecmp
    pub mtime_addr : r'.mtime_addr ≡ r.mtime_addr
    pub mtimecmp_addr : r'.mtimecmp_addr ≡ r.mtimecmp_addr

module _ (elfio : Elfio) ⦃x : Externals⦄ (d : IsDocumented x) where
  write_buffer-Holds :
      (r : Router) (s : Segment)
      → s.get_type ≡ elfio.pt_load
      → Fits s
      → Returns
          (Holds r (overlay elfio s (λ c. Accessor.read8 r.page c)))
          (write_buffer elfio r (u32 s.get_virtual_address) s.get_data s.get_file_size)
  unfolding write_buffer overlay
  write_buffer-Holds r s loads (ha, he, whole) =
      let a = s.get_virtual_address in
      let n = s.get_file_size in
      let small : ltb n (2 ^ 63) ≡ true = ground arith in
      let cut : u32 a ≡ a = omega arith in
      let inside : (ltb 0 n && true && not ((a + n) % 4096 == 0)) ≡ false = ground (arith, whole) in
      let last : written_end a n ≡ a + n = ground (arith, whole) in
      rw (small, cut, inside)
        (record {
          value = _;
          returns = refl;
          holds = record {
            bytes = λ b hb.
                ground (
                  arith,
                  read8-write d n r.page a b s.get_data n (omega arith) ha hb (omega arith),
                );
            mtime = refl;
            mtimecmp = refl;
            mtime_addr = refl;
            mtimecmp_addr = refl;
          };
        })

  overlay-other :
      (s : Segment) (f : ℕ → ℕ) (b : ℕ)
      → (s.get_type == elfio.pt_load) ≡ false
      → f b ≡ overlay elfio s f b
  unfolding overlay
  overlay-other s f b e = rw e refl

  load_segment-Holds :
      (r : Router) (s : Segment)
      → (s.get_type ≡ elfio.pt_load → Fits s)
      → Returns (Holds r (overlay elfio s (λ c. Accessor.read8 r.page c))) (load_segment elfio r s)
  unfolding load_segment
  load_segment-Holds r s fits = elim (Bool-cases (s.get_type == elfio.pt_load)) [
    | inl e ↦
        let loads : s.get_type ≡ elfio.pt_load = ground arith in
        rw e (write_buffer-Holds r s loads (fits loads))
    | inr e ↦ rw e (record {
      value = r;
      returns = refl;
      holds = record {
        bytes = λ b hb. overlay-other s _ b e;
        mtime = refl;
        mtimecmp = refl;
        mtime_addr = refl;
        mtimecmp_addr = refl;
      };
    })
  ]

  -- With libraries as documented, where the loadable segments lie in the address space and, unless
  -- they are empty, end where a page ends, loading the segments returns, and leaves at every
  -- address the byte of the last loadable segment that has this address, elsewhere the byte that
  -- was there, and the registers of the timer as they were.
  pub load_segments-Holds :
      (r : Router) (segments : List Segment)
      → IsPlaced elfio segments
      → Returns
          (Holds r (image elfio segments (λ c. Accessor.read8 r.page c)))
          (load_segments elfio r segments)
  unfolding load_segments image
  load_segments-Holds r [] fits = record {
    value = r;
    returns = refl;
    holds = record {
      bytes = λ b hb. refl;
      mtime = refl;
      mtimecmp = refl;
      mtime_addr = refl;
      mtimecmp_addr = refl;
    };
  }
  load_segments-Holds r (s ∷ segments) (fits, rest) =
      let one = load_segment-Holds r s fits in
      let more = load_segments-Holds one.value segments rest in
      rw one.returns (record {
        value = more.value;
        returns = more.returns;
        holds = record {
          bytes = λ b hb.
              more.holds.bytes b hb ∙ image_local elfio segments _ _ b (one.holds.bytes b hb);
          mtime = more.holds.mtime ∙ one.holds.mtime;
          mtimecmp = more.holds.mtimecmp ∙ one.holds.mtimecmp;
          mtime_addr = more.holds.mtime_addr ∙ one.holds.mtime_addr;
          mtimecmp_addr = more.holds.mtimecmp_addr ∙ one.holds.mtimecmp_addr;
        };
      })
