-- ===== src/Iss/LoadStore/Laws.antt =====
-- What a load finds where a store has written.
use riscv32_sim.Base.{
  ℕ, ◌+◌, ◌-◌, ◌%◌, ◌^◌, ◌<◌, ◌≡◌, refl, ap, ap₂, sym, subst, ◌∙◌, arith, Result, ok, err, ◌>>=◌,
  ltb, if◌then◌else◌, ◌==◌,
}
use riscv32_sim.Base.Word.{u8, u16, u32}
use riscv32_sim.Common.{Externals, IsDocumented, Op, OpType, LoadOp, StoreOp}
use riscv32_sim.Iss.LoadStore.{sign_extend, load_value, load, store_value, store}
use riscv32_sim.Iss.Sound.{IsOp, IsSound}
use riscv32_sim.Iss.State.{Model}
use riscv32_sim.Iss.State.Updates.{read-gpr}
use riscv32_sim.Memory.Bytes.{IsBytes}
use riscv32_sim.Memory.Router
use riscv32_sim.Memory.Router.{Router}
use riscv32_sim.Memory.Router.Laws.{read8-write8}
use riscv32_sim.Memory.Words.{read16-write16, read32-write32}

-- The word for the signed reading of `k` bits.
abbrev pub signed : ℕ → ℕ → ℕ
signed k v = if ltb v (2 ^ (k - 1)) then v else 2 ^ 32 - 2 ^ k + v

pub sign_extend-byte : (v : ℕ) → v < 2 ^ 8 → sign_extend v 24 ≡ signed 8 v
sign_extend-byte v h = ground arith

pub sign_extend-half : (v : ℕ) → v < 2 ^ 16 → sign_extend v 16 ≡ signed 16 v
sign_extend-half v h = ground arith

-- A load that reads what a store writes.
pub data SameWidth : StoreOp → LoadOp → Type 0 where
  byte : SameWidth StoreOp.sb LoadOp.lb
  byte_unsigned : SameWidth StoreOp.sb LoadOp.lbu
  half : SameWidth StoreOp.sh LoadOp.lh
  half_unsigned : SameWidth StoreOp.sh LoadOp.lhu
  word : SameWidth StoreOp.sw LoadOp.lw

-- The word that the manual has a load put in its register, by the word that was stored.
abbrev pub loaded : LoadOp → ℕ → ℕ
loaded LoadOp.lb v = signed 8 (v % 2 ^ 8)
loaded LoadOp.lbu v = v % 2 ^ 8
loaded LoadOp.lh v = signed 16 (v % 2 ^ 16)
loaded LoadOp.lhu v = v % 2 ^ 16
loaded LoadOp.lw v = v
loaded (LoadOp.unnamed n) v = 0

-- A value that a run gives, handed on.
bind-then :
    {A : Type 0} {B : Type 0} {C : Type 0} (r : Result A) (f : A → Result B) (g : B → Result C)
    (v : B)
    → (r >>= f) ≡ ok v
    → (r >>= λ a. f a >>= g) ≡ g v
bind-then (ok a) f g v h = rw h refl
bind-then (err e) f g v h = cc

-- A run whose result is only wrapped before it goes on.
bind-ok :
    {A : Type 0} {B : Type 0} {C : Type 0} (r : Result A) (f : A → B) (g : B → Result C)
    (h : A → Result C)
    → ((a : A) → g (f a) ≡ h a)
    → (r >>= (λ a. ok (f a)) >>= g) ≡ (r >>= h)
bind-ok (ok a) f g h k = k a
bind-ok (err e) f g h k = refl

-- The address of the instruction.
abbrev pub address : Model → ℕ
address m = u32 (m.regf m.cur_state.dec.rs1 + m.cur_state.dec.imm)

-- The next instruction.
abbrev pub next : Model → Op → Model
next m o = record m { cur_state = record m.cur_state { dec = o } }

module _ ⦃x : Externals⦄ (d : IsDocumented x) where
  read8-back :
      (r : Router) (a v : ℕ) → a < 2 ^ 32 → (Router.write8 r a v >>= λ r'. Router.read8 r' a) ≡ ok v
  read8-back r a v ha = read8-write8 d r a a v ha ha ∙ ground arith

  read16-back :
      (r : Router) (a v : ℕ)
      → a < 2 ^ 32
      → v < 2 ^ 16
      → IsBytes r.page
      → Router.read16 (Router.write16 r a v) a ≡ v
  unfolding Router.read16 Router.write16
  read16-back r a v ha hv b = read16-write16 d r.page a v ha hv b

  read32-back :
      (r : Router) (a v : ℕ)
      → a < 2 ^ 32
      → v < 2 ^ 32
      → IsBytes r.page
      → Router.read32 (Router.write32 r a v) a ≡ v
  unfolding Router.read32 Router.write32
  read32-back r a v ha hv b = read32-write32 d r.page a v ha hv b

  load_value-store_value :
      {s : StoreOp} {l : LoadOp}
      → SameWidth s l
      → (r : Router) (a v : ℕ) → a < 2 ^ 32
      → v < 2 ^ 32
      → IsBytes r.page
      → (store_value r s a v >>= λ r'. load_value r' l a) ≡ ok (loaded l v)
  unfolding store_value load_value
  load_value-store_value byte r a v ha hv b =
      bind-then (Router.write8 r a (u8 v)) _ (λ w. ok (sign_extend w 24)) (u8 v)
        (read8-back r a (u8 v) ha)
      ∙ ap ok (sign_extend-byte (u8 v) (omega arith))
  load_value-store_value byte_unsigned r a v ha hv b = read8-back r a (u8 v) ha
  load_value-store_value half r a v ha hv b =
      rw (read16-back r a (u16 v) ha (omega arith) b)
        (ap ok (sign_extend-half (u16 v) (omega arith)))
  load_value-store_value half_unsigned r a v ha hv b =
      ap ok (read16-back r a (u16 v) ha (omega arith) b)
  load_value-store_value word r a v ha hv b = ap ok (read32-back r a v ha hv b)

  pub store-store_value :
      (s : StoreOp) (m : Model)
      → IsOp m.cur_state.dec
      → m.cur_state.dec.opt ≡ OpType.store s
      → store m ≡ (
          store_value m.mem s (address m) (m.regf m.cur_state.dec.rs2) >>= λ mem.
          ok (record m { mem = mem; is_done = address m == m.tohost_addr }))
  unfolding store
  store-store_value s m op hs =
      rw (read-gpr m m.cur_state.dec.rs1 op.rs1_fits, read-gpr m m.cur_state.dec.rs2 op.rs2_fits)
        (simp hs refl)

  pub load-load_value :
      (l : LoadOp) (m : Model)
      → m.cur_state.dec.rs1 < 32
      → m.cur_state.dec.opt ≡ OpType.load l
      → load m ≡ load_value m.mem l (address m)
  unfolding load
  load-load_value l m h hl = rw (read-gpr m m.cur_state.dec.rs1 h) (simp hl refl)

  -- With libraries as documented, from a sound state with a decoded store, a load of the same
  -- width from the same address returns what the manual has it put in its register: the stored
  -- byte, half word or word, extended by its sign or by zeros. It holds at every address, also in
  -- the timer's registers, where bytes go, and beside them, where the wider accesses go.
  pub load-store :
      {s : StoreOp} {l : LoadOp}
      → SameWidth s l
      → (m : Model) (o : Op) → IsSound m
      → IsOp m.cur_state.dec
      → m.cur_state.dec.opt ≡ OpType.store s
      → o.opt ≡ OpType.load l
      → o.rs1 ≡ m.cur_state.dec.rs1
      → o.imm ≡ m.cur_state.dec.imm
      → (store m >>= λ m'. load (next m' o)) ≡ ok (loaded l (m.regf m.cur_state.dec.rs2))
  load-store {s} {l} w m o sound op hs hl h1 hi = rw (store-store_value s m op hs) (
      bind-ok (store_value m.mem s (address m) (m.regf m.cur_state.dec.rs2)) _ _ _ (λ mem.
        load-load_value l (next (record m { mem = mem; is_done = address m == m.tohost_addr }) o)
          (subst (λ i. i < 32) (sym h1) op.rs1_fits) hl
        ∙ ap₂ (λ (r i : ℕ). load_value mem l (u32 (m.regf r + i))) h1 hi)
      ∙ load_value-store_value w m.mem (address m) (m.regf m.cur_state.dec.rs2) (omega arith)
          (sound.gpr_fits m.cur_state.dec.rs2) sound.mem_bytes.page_bytes)
