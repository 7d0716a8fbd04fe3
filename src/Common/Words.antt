-- ===== src/Common/Words.antt =====
-- Machine words: a w-bit value is a number below 2 ^ w, and an `int32_t` is its bit pattern.
use Prim.Native.Nat.{ℕ, ◌+◌, ◌-◌, ◌*◌, ◌/◌, ◌%◌, ◌^◌}
use ktcp_split.Common.Tests.{ltb, if◌then◌else◌}
use ktcp_split.Common.Int.{ℤ, pos, negsuc}

abbrev pub u16 : ℕ → ℕ
u16 n = n % 2 ^ 16

abbrev pub u32 : ℕ → ℕ
u32 n = n % 2 ^ 32

abbrev pub u64 : ℕ → ℕ
u64 n = n % 2 ^ 64

-- `a - b` of 32-bit operands.
abbrev pub sub32 : ℕ → ℕ → ℕ
sub32 a b = (a + 2 ^ 32 - b) % 2 ^ 32

-- The integer that the pattern of an `int32_t` stands for.
abbrev pub signed32 : ℕ → ℤ
signed32 w = if ltb w (2 ^ 31) then pos w else negsuc (2 ^ 32 - w - 1)

-- `ntohs` and `htons` on a little-endian machine: the two bytes change places.
abbrev pub swap16 : ℕ → ℕ
swap16 w = w % 256 * 256 + w / 256 % 256

-- `ntohl` and `htonl` on a little-endian machine.
abbrev pub swap32 : ℕ → ℕ
swap32 w = w % 256 * 2 ^ 24 + w / 256 % 256 * 2 ^ 16 + w / 2 ^ 16 % 256 * 256 + w / 2 ^ 24 % 256
