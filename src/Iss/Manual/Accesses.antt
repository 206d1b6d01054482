-- ===== src/Iss/Manual/Accesses.antt =====
-- Loads and stores on the map of bytes of the reference hart, away from the timer registers.
use riscv32_sim.Base.{
  ℕ, zero, suc, ◌+◌, ◌*◌, ◌-◌, ◌%◌, ◌^◌, ◌<◌, ◌≡◌, ◌≢◌, refl, ap, ◌∙◌, arith, false, ok, Returns,
  fun_ext,
}
use riscv32_sim.Base.Word.{u8, u16, u32}
use riscv32_sim.Common.{Externals, IsDocumented, LoadOp, StoreOp}
use riscv32_sim.Iss.LoadStore.{load_value, store_value}
use riscv32_sim.Iss.LoadStore.Laws.{loaded, signed, sign_extend-byte, sign_extend-half}
use riscv32_sim.Iss.Manual.State.{load_size, store_size}
use riscv32_sim.Iss.Sound.{IsMemory}
use riscv32_sim.Memory.Accessor
use riscv32_sim.Memory.Bytes.{
  number_at, stored, byte_of, byte_of_small, read8-write8_pages, read8-write16, read8-write32,
}
use riscv32_sim.Memory.Router
use riscv32_sim.Memory.Router.{Router, in_register}
use riscv32_sim.Memory.Router.Laws.{byte, read8-byte, written, write8-written}
use riscv32_sim.Memory.Words.{read16-lt, read16-number_at, read32-number_at}

-- Maps of bytes that agree on the address space give the same numbers.
pub number_at-agree :
    (f g : ℕ → ℕ)
    → ((b : ℕ) → b < 2 ^ 32 → f b ≡ g b)
    → (a n : ℕ) → a < 2 ^ 32
    → number_at f a n ≡ number_at g a n
unfolding number_at
number_at-agree f g h a zero ha = refl
number_at-agree f g h a (suc n) ha =
    omega (arith, h a ha, number_at-agree f g h (u32 (a + 1)) n (omega arith))

-- The address is not one at which a byte access goes to a timer register.
abbrev pub IsOutside : Router → ℕ → Type 0
IsOutside r a = (in_register r.mtime_addr a ≡ false) × (in_register r.mtimecmp_addr a ≡ false)

module _ ⦃x : Externals⦄ where
  -- The bytes of the memory, at addresses that wrap.
  abbrev pub bytes_of : Router → ℕ → ℕ
  bytes_of r a = Accessor.read8 r.page (u32 a)

  bytes_of-lt : (r : Router) (a : ℕ) → IsMemory r → bytes_of r a < 2 ^ 8
  bytes_of-lt r a b = b.page_bytes (u32 a) (omega arith)

  pub number_at-bytes_of :
      (r : Router) (a n : ℕ)
      → a < 2 ^ 32
      → number_at (Accessor.read8 r.page) a n ≡ number_at (bytes_of r) a n
  number_at-bytes_of r a n ha =
      number_at-agree (Accessor.read8 r.page) (bytes_of r)
        (λ b hb. ap (Accessor.read8 r.page) (let e : b ≡ u32 b = omega arith in e)) a n ha

  byte-outside : (r : Router) (a : ℕ) → a < 2 ^ 32 → IsOutside r a → byte r a ≡ bytes_of r a
  unfolding byte
  byte-outside r a ha (h, k) = let e : u32 a ≡ a = omega arith in rw (h, k, e)

  -- A half word, and that it is its own remainder.
  half-bytes_of :
      (r : Router) (a : ℕ)
      → IsMemory r
      → a < 2 ^ 32
      → (Router.read16 r a ≡ number_at (bytes_of r) a 2 % 2 ^ 16) × (Router.read16 r a < 2 ^ 16)
  unfolding Router.read16
  half-bytes_of r a b ha =
      let fits = read16-lt r.page a b.page_bytes ha in
      (
        omega
            (arith, fits, read16-number_at r.page a b.page_bytes ha ∙ number_at-bytes_of r a 2 ha),
        fits,
      )

  -- A load gets what the bytes from its address on stand for.
  pub load_value-loaded :
      (r : Router) (l : LoadOp) (a : ℕ)
      → IsMemory r
      → a < 2 ^ 32
      → ((n : ℕ) → l ≢ LoadOp.unnamed n)
      → (load_size l ≡ 1 → IsOutside r a)
      → load_value r l a ≡ ok (loaded l (number_at (bytes_of r) a (load_size l)))
  unfolding load_value number_at Router.read32
  load_value-loaded r LoadOp.lb a b ha h k =
      let fits = bytes_of-lt r a b in
      rw (read8-byte r a, byte-outside r a ha (k refl))
        (ap ok (
          sign_extend-byte (bytes_of r a) fits
          ∙ ap (signed 8)
              (let e : bytes_of r a ≡ (bytes_of r a + 2 ^ 8 * 0) % 2 ^ 8 = omega arith in e)))
  load_value-loaded r LoadOp.lbu a b ha h k =
      let fits = bytes_of-lt r a b in
      rw (read8-byte r a, byte-outside r a ha (k refl))
        (ap ok (let e : bytes_of r a ≡ (bytes_of r a + 2 ^ 8 * 0) % 2 ^ 8 = omega arith in e))
  load_value-loaded r LoadOp.lh a b ha h k =
      let half = half-bytes_of r a b ha in
      ap ok (sign_extend-half (Router.read16 r a) half.1 ∙ ap (signed 16) half.0)
  load_value-loaded r LoadOp.lhu a b ha h k = ap ok (half-bytes_of r a b ha).0
  load_value-loaded r LoadOp.lw a b ha h k =
      ap ok (read32-number_at r.page a b.page_bytes ha ∙ number_at-bytes_of r a 4 ha)
  load_value-loaded r (LoadOp.unnamed n) a b ha h k = absurd (h n refl)

module _ ⦃x : Externals⦄ (d : IsDocumented x) where
  byte-stored :
      (r : Router) (a b v : ℕ)
      → a < 2 ^ 32
      → Accessor.read8 (Accessor.write8 r.page a (u8 v)) (u32 b) ≡ stored (bytes_of r) a 1 v b
  unfolding stored byte_of
  byte-stored r a b v ha =
      ground (arith, read8-write8_pages d r.page a (u32 b) (u8 v) ha (omega arith))

  -- What is stored at an address that wraps.
  stored-wraps :
      (r : Router) (a b n v : ℕ)
      → a < 2 ^ 32
      → stored (Accessor.read8 r.page) a n v (u32 b) ≡ stored (bytes_of r) a n v b
  unfolding stored
  stored-wraps r a b n v ha =
      let e : u32 (u32 b + 2 ^ 32 - a) ≡ u32 (b + 2 ^ 32 - a) = omega arith in rw e

  stored-half :
      (r : Router) (a b v : ℕ) → stored (bytes_of r) a 2 (u16 v) b ≡ stored (bytes_of r) a 2 v b
  unfolding stored
  stored-half r a b v =
      let i = u32 (b + 2 ^ 32 - a) in ground (arith, byte_of_small (u16 v) i, byte_of_small v i)

  pub bytes_of-write32 :
      (r : Router) (a v : ℕ)
      → a < 2 ^ 32
      → bytes_of (Router.write32 r a v) ≡ stored (bytes_of r) a 4 v
  unfolding Router.write32
  bytes_of-write32 r a v ha =
      fun_ext (λ b. read8-write32 d r.page a (u32 b) v ha (omega arith) ∙ stored-wraps r a b 4 v ha)

  -- A store changes the bytes from its address on, and no other.
  pub store_value-stored :
      (r : Router) (s : StoreOp) (a v : ℕ)
      → a < 2 ^ 32
      → ((n : ℕ) → s ≢ StoreOp.unnamed n)
      → (store_size s ≡ 1 → IsOutside r a)
      → Returns
          (λ r'.
            (bytes_of r' ≡ stored (bytes_of r) a (store_size s) v)
            × (r'.mtime_addr ≡ r.mtime_addr)
            × (r'.mtimecmp_addr ≡ r.mtimecmp_addr))
          (store_value r s a v)
  unfolding store_value Router.write16 Router.write32 written
  store_value-stored r StoreOp.sb a v ha h k = record {
    value = record r { page = Accessor.write8 r.page a (u8 v) };
    returns = rw (write8-written r a (u8 v), (k refl).0, (k refl).1);
    holds = (fun_ext (λ b. byte-stored r a b v ha), refl, refl);
  }
  store_value-stored r StoreOp.sh a v ha h k = record {
    value = Router.write16 r a (u16 v);
    returns = refl;
    holds = (
      fun_ext (λ b.
          read8-write16 d r.page a (u32 b) (u16 v) ha (omega arith)
          ∙ stored-wraps r a b 2 (u16 v) ha
          ∙ stored-half r a b v),
      refl,
      refl,
    );
  }
  store_value-stored r StoreOp.sw a v ha h k = record {
    value = Router.write32 r a v;
    returns = refl;
    holds = (bytes_of-write32 r a v ha, refl, refl);
  }
  store_value-stored r (StoreOp.unnamed n) a v ha h k = absurd (h n refl)
