-- ===== src/Word.antt =====
-- Machine words as native numbers: wrap-around, byte order, signed reading, single-bit flags.
-- The daemon's host is little endian, so `htonl` and `ntohl` (utils.c, packet.c) swap bytes.
pub mod Laws
use meshias.Base.{ℕ, ◌+◌, ◌-◌, ◌*◌, ◌/◌, ◌%◌, ◌^◌, Bool, ◌==◌, ltb, if◌then◌else◌, ℤ, pos, negsuc}

abbrev pub u32_mod : ℕ
u32_mod = 2 ^ 32

abbrev pub u64_mod : ℕ
u64_mod = 2 ^ 64

-- `(uint8_t)x` and `(uint32_t)x`
abbrev pub u8 : ℕ → ℕ
u8 x = x % 256

abbrev pub u32 : ℕ → ℕ
u32 x = x % u32_mod

-- `uint32_t` sum and difference
abbrev pub add32 : ℕ → ℕ → ℕ
add32 a b = (a + b) % u32_mod

abbrev pub sub32 : ℕ → ℕ → ℕ
sub32 a b = (a + u32_mod - b % u32_mod) % u32_mod

-- The bytes of a word in memory order, and back.
abbrev pub byte : ℕ → ℕ → ℕ
byte x i = x / 256 ^ i % 256

abbrev pub word : ℕ → ℕ → ℕ → ℕ → ℕ
word a b c d = a + b * 256 + c * 65536 + d * 16777216

unfoldable pub htonl : ℕ → ℕ
htonl x = word (byte x 3) (byte x 2) (byte x 1) (byte x 0)

unfoldable pub ntohl : ℕ → ℕ
ntohl x = word (byte x 3) (byte x 2) (byte x 1) (byte x 0)

-- `(int32_t)w`
abbrev pub signed32 : ℕ → ℤ
signed32 w = if ltb w (2 ^ 31) then pos w else negsuc (u32_mod - w - 1)

-- `(int32_t)a < (int32_t)b`
unfoldable pub signed_lt : ℕ → ℕ → Bool
signed_lt a b = ltb ((a + 2 ^ 31) % u32_mod) ((b + 2 ^ 31) % u32_mod)

-- A flag is a power of two: `f & m`, `f | m` and `f & ~m`.
unfoldable pub has_flag : ℕ → ℕ → Bool
has_flag m f = f / m % 2 == 1

unfoldable pub set_bit : ℕ → ℕ → ℕ
unfolding has_flag
set_bit m f = if has_flag m f then f else f + m

unfoldable pub unset_bit : ℕ → ℕ → ℕ
unfolding has_flag
unset_bit m f = if has_flag m f then f - m else f
