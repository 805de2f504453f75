-- ===== src/Base/Words.antt =====
-- Machine words as native numbers: a uint32_t and a uint64_t (size_t is 64 bits wide).
use Prim.Native.Nat.{ℕ, ◌+◌, ◌-◌, ◌*◌, ◌%◌, ◌^◌}

abbrev pub word32 : ℕ → ℕ
word32 a = a % 2 ^ 32

abbrev pub word64 : ℕ → ℕ
word64 a = a % 2 ^ 64

abbrev pub add32 : ℕ → ℕ → ℕ
add32 a b = (a + b) % 2 ^ 32

abbrev pub add64 : ℕ → ℕ → ℕ
add64 a b = (a + b) % 2 ^ 64

-- `-` on ℕ is truncated, so the modulus is added first.
abbrev pub sub32 : ℕ → ℕ → ℕ
sub32 a b = (a + 2 ^ 32 - b % 2 ^ 32) % 2 ^ 32

abbrev pub sub64 : ℕ → ℕ → ℕ
sub64 a b = (a + 2 ^ 64 - b % 2 ^ 64) % 2 ^ 64

abbrev pub mul64 : ℕ → ℕ → ℕ
mul64 a b = (a * b) % 2 ^ 64

-- static_cast<uint32_t>(-1) and static_cast<uint64_t>(-1)
abbrev pub none32 : ℕ
none32 = 0xffff_ffff

abbrev pub none64 : ℕ
none64 = 0xffff_ffff_ffff_ffff
