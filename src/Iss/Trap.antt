-- ===== src/Iss/Trap.antt =====
-- Traps: `trap`, `save_pc`, `set_pending`, `ecall_cause`, `handle_sys_exit` and `handle_mret`
-- (riscv32-sim/src/iss/model.cpp).
pub mod Numbers
pub mod Exceptions
pub mod Interrupts
pub mod Return
pub mod ExceptionReturn
use riscv32_sim.Base.{
  ℕ, ◌+◌, ◌*◌, ◌^◌, bit_and, Bool, true, false, not, ◌&&◌, Option, none, some, Result, ok, err,
  ◌>>=◌, ◌==◌, if◌then◌else◌,
}
use riscv32_sim.Base.Bitset.{bit, with_bit, test, assign}
use riscv32_sim.Base.Word.{u32}
use riscv32_sim.Common.{Externals}
use riscv32_sim.Iss.State.{Model, write_csr, pc_of, set_pc, update_pc}
use riscv32_sim.Memory.Router
use riscv32_sim.RegFile
use riscv32_sim.TrapCause.{
  TrapCause, exp_ecall_from_u_vu_mode, exp_ecall_from_hs_mode, exp_ecall_from_vs_mode,
  exp_ecall_from_m_mode, exp_breakpoint,
}
use riscv32_sim.TrapCause
use riscv32_sim.Zicsr.Csr
use riscv32_sim.Zicsr.Csr.{Csr}
use riscv32_sim.Zicsr.CsrFile
use riscv32_sim.Zicsr.Status
use riscv32_sim.Zicsr.Status.{position}
use riscv32_sim.Zicsr.Mode.{Privilege, user, supervisor, hypervisor, machine, set_mode, priv_csr}

-- The positions in `struct status`.
abbrev pub mie_bit : ℕ
mie_bit = position Status.mie

abbrev pub mpie_bit : ℕ
mpie_bit = position Status.mpie

abbrev pub mpp_bit : ℕ
mpp_bit = position Status.mpp

unfoldable pub ecall_cause : Model → TrapCause
ecall_cause m = elim m.mode.m [
  | user ↦ exp_ecall_from_u_vu_mode
  | supervisor ↦ exp_ecall_from_vs_mode
  | hypervisor ↦ exp_ecall_from_hs_mode
  | machine ↦ exp_ecall_from_m_mode
]

-- The labels of the switch in `save_pc`.
pub data PcCase : Type 0 where
  ecall breakpoint default : PcCase

unfoldable pub pc_case : TrapCause → PcCase
pc_case exp_ecall_from_hs_mode = ecall
pc_case exp_ecall_from_m_mode = ecall
pc_case exp_ecall_from_vs_mode = ecall
pc_case exp_ecall_from_u_vu_mode = ecall
pc_case exp_breakpoint = breakpoint
pc_case _ = default

-- `static_cast<privilege>` of two bits.
abbrev pub privilege_of : Bool → Bool → Privilege
privilege_of false false = user
privilege_of false true = supervisor
privilege_of true false = hypervisor
privilege_of true true = machine

module _ ⦃x : Externals⦄ where
  unfoldable pub handle_sys_exit : Model → Result Model
  handle_sys_exit m = do
    a7 ← RegFile.read m.regf 17
    let exit = RegFile.read m.regf 10 >>= λ a0.
        ok (record m { mem = Router.write32 m.mem m.tohost_addr a0; is_done = true })
    if a7 == 93 then exit else ok m

  unfoldable pub save_pc : Model → TrapCause → Result Model
  save_pc m cause =
      let epc = bit_and (pc_of m) x.base_addr in
      let uepc = priv_csr m.mode Csr.uepc in
      elim (pc_case cause) [
        | ecall ↦ write_csr m uepc epc >>= handle_sys_exit
        | breakpoint ↦ write_csr m uepc epc
        | default ↦ write_csr m uepc (bit_and (u32 (epc + 4)) x.base_addr)
      ]

  unfoldable pub is_interrupt : TrapCause → Bool
  is_interrupt cause = not (bit_and (TrapCause.to_int cause) x.sign_bit == 0)

  unfoldable pub interrupt_number : TrapCause → ℕ
  interrupt_number cause = bit_and (TrapCause.to_int cause) x.msb_zero

  -- The first half of `trap`, for an interrupt: `none` where it is not taken and `trap` returns.
  unfoldable pub accept : Model → TrapCause → Result (Option Model)
  accept m cause = do
    mstatus ← CsrFile.read m.csrf (Csr.to_int Csr.mstatus)
    let i = interrupt_number cause
    mie ← CsrFile.read m.csrf (Csr.to_int Csr.mie)
    mip ← CsrFile.read m.csrf (Csr.to_int Csr.mip)
    enabled ← test mie i
    pending ← test mip i
    let take = enabled && pending && bit mstatus mie_bit
    let taken = do
      mip' ← assign mip i false
      m₁ ← write_csr m (Csr.to_int Csr.mip) mip'
      let with_mpp = with_bit (with_bit mstatus mpp_bit true) (mpp_bit + 1) true
      let with_mpie = with_bit with_mpp mpie_bit (bit with_mpp mie_bit)
      m₂ ← write_csr m₁ (Csr.to_int Csr.mstatus) (with_bit with_mpie mie_bit false)
      ok (some m₂)
    if take then taken else ok none

  -- The second half of `trap`.
  unfoldable pub enter : Model → TrapCause → Result Model
  enter m cause = do
    m₁ ← write_csr m (priv_csr m.mode Csr.ucause) (TrapCause.to_int cause)
    m₂ ← write_csr m₁ (priv_csr m₁.mode Csr.utval) 0
    tvec ← CsrFile.read m₂.csrf (priv_csr m₂.mode Csr.utvec)
    let base = bit_and tvec x.base_addr
    let entry = if is_interrupt cause then u32 (base + u32 (interrupt_number cause * 4)) else base
    m₃ ← save_pc (set_pc m₂ entry) cause
    ok (if is_interrupt cause then update_pc m₃ else m₃)

  unfoldable pub trap : Model → TrapCause → Result Model
  trap m cause =
      if is_interrupt cause
      then (accept m cause >>= λ r. elim r [ none ↦ ok m | some m' ↦ enter m' cause ])
      else enter m cause

  unfoldable pub set_pending : Model → TrapCause → Result Model
  set_pending m cause = do
    mip ← CsrFile.read m.csrf (Csr.to_int Csr.mip)
    mip' ← assign mip (interrupt_number cause) true
    write_csr m (Csr.to_int Csr.mip) mip'

  unfoldable pub handle_mret : Model → Result Model
  handle_mret m = do
    mstat ← CsrFile.read m.csrf (Csr.to_int Csr.mstatus)
    let pp = privilege_of (bit mstat (mpp_bit + 1)) (bit mstat mpp_bit)
    let with_mie = with_bit mstat mie_bit (bit mstat mpie_bit)
    let with_mpie = with_bit with_mie mpie_bit true
    let with_mpp = with_bit (with_bit with_mpie mpp_bit true) (mpp_bit + 1) true
    m₁ ← write_csr m (Csr.to_int Csr.mstatus) with_mpp
    mepc ← CsrFile.read m₁.csrf (Csr.to_int Csr.mepc)
    ok (record (set_pc m₁ mepc) { mode = set_mode pp })
