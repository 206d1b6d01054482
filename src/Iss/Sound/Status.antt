-- ===== src/Iss/Sound/Status.antt =====
-- The status words that a trap and the return from it leave fit in 32 bits.
use riscv32_sim.Base.{ℕ, ◌^◌, ◌<◌, arith, Bool, true, false}
use riscv32_sim.Base.Bitset.{bit, with_bit}
use riscv32_sim.Iss.Trap.Interrupts.{mstatus_entered}
use riscv32_sim.Iss.Trap.Return.{mstatus_left}

pub with_bit-lt_3 : (w : ℕ) (v : Bool) → w < 2 ^ 32 → with_bit w 3 v < 2 ^ 32
with_bit-lt_3 w v h = ground arith

pub with_bit-lt_7 : (w : ℕ) (v : Bool) → w < 2 ^ 32 → with_bit w 7 v < 2 ^ 32
with_bit-lt_7 w v h = ground arith

pub with_bit-lt_11 : (w : ℕ) → w < 2 ^ 32 → with_bit w 11 true < 2 ^ 32
with_bit-lt_11 w h = omega arith

pub with_bit-lt_12 : (w : ℕ) → w < 2 ^ 32 → with_bit w 12 true < 2 ^ 32
with_bit-lt_12 w h = omega arith

pub mstatus_left-lt : (s : ℕ) → s < 2 ^ 32 → mstatus_left s < 2 ^ 32
mstatus_left-lt s h =
    with_bit-lt_12 _ (with_bit-lt_11 _ (with_bit-lt_7 _ true (with_bit-lt_3 s (bit s 7) h)))

pub mstatus_entered-lt : (s : ℕ) → s < 2 ^ 32 → mstatus_entered s < 2 ^ 32
mstatus_entered-lt s h =
    let s' = with_bit (with_bit s 11 true) 12 true in
    with_bit-lt_3 _ false (with_bit-lt_7 s' (bit s' 3) (with_bit-lt_12 _ (with_bit-lt_11 s h)))
