-- ===== src/Common/Bits.antt =====
-- Access rights (include/sys/types.h) and the bit tests on them. An `access_t` is an `int8_t`, kept
-- here as its bit pattern, a number below 256.
use Prim.Native.Nat.{ℕ, ◌-◌, ◌+◌, ◌%◌, ◌^◌, bit_and}
use mathlib.Core.Bool.{Bool, not}
use mungi.Common.Tests.{◌==◌}

abbrev pub m_pdx : ℕ
m_pdx = 16

abbrev pub m_not : ℕ
m_not = 32

abbrev pub m_owner : ℕ
m_owner = 15

-- `(a & b) != 0`.
abbrev pub meets : ℕ → ℕ → Bool
meets a b = not (bit_and a b == 0)

-- `(a & ~b) == 0`.
abbrev pub within : ℕ → ℕ → Bool
within a b = bit_and a (255 - b) == 0

-- `a - b` on 64-bit unsigned words.
abbrev pub sub64 : ℕ → ℕ → ℕ
sub64 a b = (a + 2 ^ 64 - b) % 2 ^ 64
