-- ===== src/Zicsr/Misa.antt =====
-- `misa_value` of riscv32-sim/include/zicsr/misa.hpp: a bit for each extension, and the width.
use riscv32_sim.Base.{ℕ, ◌-◌, ◌*◌, ◌^◌, bit_or, ◌&&◌, leb, List, [], ◌∷◌, if◌then◌else◌}

-- `sel`: only upper-case letters have a bit.
unfoldable pub sel : ℕ → ℕ → ℕ
sel acc c = bit_or acc (if leb b'A' c && leb c b'Z' then 1 * 2 ^ (25 - (b'Z' - c)) else 0)

unfoldable pub accumulate : List ℕ → ℕ → ℕ
unfolding sel
accumulate [] acc = acc
accumulate (c ∷ str) acc = accumulate str (sel acc c)

unfoldable pub misa : List ℕ → ℕ
unfolding accumulate
misa str = accumulate str 0

abbrev pub rv32 : ℕ
rv32 = 1 * 2 ^ 30

unfoldable pub misa_value : ℕ
unfolding misa
misa_value = bit_or (misa (b'I' ∷ b'M' ∷ b'S' ∷ [])) rv32
