-- ===== src/Iss/State/Updates.antt =====
-- Writes to the register files, as the states that they lead to.
use riscv32_sim.Base.{
  ℕ, ◌<◌, ◌≡◌, arith, [], ◌∷◌, ◌++◌, ok, ◌==◌, if◌then◌else◌, update, lt→ltb, Bool-cases, inl, inr,
}
use riscv32_sim.Base.Word.{u8, u16}
use riscv32_sim.Iss.State.{Model, write_csr, write_gpr}
use riscv32_sim.RegFile
use riscv32_sim.Zicsr.CsrFile

abbrev pub csr_written : Model → ℕ → ℕ → Model
csr_written m i v = record m {
  csrf = update m.csrf i v;
  cur_state = record m.cur_state {
    csr_staged = m.cur_state.csr_staged ++ record { index = i; prev = m.csrf i; next = v } ∷ [];
  };
}

abbrev pub gpr_written : Model → ℕ → ℕ → Model
gpr_written m i v = record m {
  regf = if i == 0 then m.regf else update m.regf i v;
  cur_state = record m.cur_state {
    gpr_staged = m.cur_state.gpr_staged ++ record { index = i; prev = m.regf i; next = v } ∷ [];
  };
}

pub write_csr-csr_written :
    (m : Model) (i v : ℕ) → i < 4096 → write_csr m i v ≡ ok (csr_written m i v)
unfolding write_csr CsrFile.write_staged
write_csr-csr_written m i v h = let e : u16 i ≡ i = omega arith in rw (e, lt→ltb i 4096 h)

pub write_gpr-gpr_written :
    (m : Model) (i v : ℕ) → i < 32 → write_gpr m i v ≡ ok (gpr_written m i v)
unfolding write_gpr RegFile.write_staged
write_gpr-gpr_written m i v h =
    let e : u8 i ≡ i = omega arith in
    elim (Bool-cases (i == 0)) [
      | inl z ↦ rw (e, lt→ltb i 32 h, z)
      | inr z ↦ rw (e, lt→ltb i 32 h, z)
    ]

-- A read of a register in range.
pub read-gpr : (m : Model) (i : ℕ) → i < 32 → RegFile.read m.regf i ≡ ok (m.regf i)
unfolding RegFile.read
read-gpr m i h = rw (lt→ltb i 32 h)

pub read-csr : (m : Model) (i : ℕ) → i < 4096 → CsrFile.read m.csrf i ≡ ok (m.csrf i)
unfolding CsrFile.read
read-csr m i h = rw (lt→ltb i 4096 h)
