-- ===== src/Prelude/Word.antt =====
-- Machine words of the C code as native numbers: casts, shifts, wrapping sums, and the two's
-- complement reading of a 32-bit pattern. The host is little endian, as Android's are.
use Prim.Native.Nat.{ℕ, ◌+◌, ◌-◌, ◌*◌, ◌/◌, ◌%◌, ◌^◌}
use mathlib.Core.List.{List, [], ◌∷◌}

abbrev pub u8 : ℕ → ℕ
u8 n = n % 2 ^ 8

abbrev pub u16 : ℕ → ℕ
u16 n = n % 2 ^ 16

abbrev pub u32 : ℕ → ℕ
u32 n = n % 2 ^ 32

-- `a - b` in `uint32_t`, for operands below 2 ^ 32.
abbrev pub sub32 : ℕ → ℕ → ℕ
sub32 a b = (a + 2 ^ 32 - b) % 2 ^ 32

-- `~x` cut to `uint16_t`, for an `x` below 2 ^ 16.
abbrev pub not16 : ℕ → ℕ
not16 x = 65535 - x

-- A `uint16_t` stored at an address of a little-endian host.
abbrev pub store16 : ℕ → List ℕ
store16 n = (n % 256) ∷ (n / 256 % 256) ∷ []

-- The bytes of `htons(n)` and `htonl(n)` in memory: the most significant byte first.
abbrev pub be16 : ℕ → List ℕ
be16 n = (n / 256 % 256) ∷ (n % 256) ∷ []

abbrev pub be32 : ℕ → List ℕ
be32 n = (n / 2 ^ 24 % 256) ∷ (n / 2 ^ 16 % 256) ∷ (n / 256 % 256) ∷ (n % 256) ∷ []

-- `ntohs` and `htons` of a little-endian host.
abbrev pub swap16 : ℕ → ℕ
swap16 n = n % 256 * 256 + n / 256 % 256
