-- ===== src/Guest/Stdint.antt =====
-- The types of runtime/basic/include/serdar_stdint.h on a compiler with 8-bit `char`, 16-bit
-- `short` and 32-bit `int`.
use riscv32_sim.Base.{
  ℕ, ◌*◌, ◌/◌, ◌%◌, ◌^◌, Result, ok, err, undefined_behaviour, ltb, if◌then◌else◌,
}

pub data Width : Type 0 where
  char_bits short_bits int_bits long_bits : Width

pub data Stdint : Type 0 where
  int8_t int16_t uint8_t uint16_t int32_t uint32_t int64_t uint64_t : Stdint

-- The `typedef`s: the C type that stands behind each name.
unfoldable pub typedef : Stdint → Width
typedef int8_t = char_bits
typedef int16_t = short_bits
typedef uint8_t = char_bits
typedef uint16_t = short_bits
typedef int32_t = int_bits
typedef uint32_t = int_bits
typedef int64_t = long_bits
typedef uint64_t = long_bits

unfoldable pub width : ℕ → Width → ℕ
width ulong char_bits = 8
width ulong short_bits = 16
width ulong int_bits = 32
width ulong long_bits = ulong

-- The value that a `uint64_t` of the header holds.
unfoldable pub cut64 : ℕ → ℕ → ℕ
unfolding width typedef
cut64 ulong v = v % 2 ^ width ulong (typedef uint64_t)

-- `v << k` and `v >> k` on it: undefined from the width of the type on.
unfoldable pub shift_left : ℕ → ℕ → ℕ → Result ℕ
unfolding width typedef
shift_left ulong v k =
    if ltb k (width ulong (typedef uint64_t))
    then ok (cut64 ulong (v * 2 ^ k))
    else err undefined_behaviour

unfoldable pub shift_right : ℕ → ℕ → ℕ → Result ℕ
unfolding width typedef
shift_right ulong v k =
    if ltb k (width ulong (typedef uint64_t)) then ok (v / 2 ^ k) else err undefined_behaviour
