-- ===== src/Headers/AtomicNumberMask.antt =====
-- The macros of ycommon/headers/atomic_number_mask.h: a 64-bit value is a counter in its upper 8 bits
-- and a number in its lower 56. The masks keep or clear whole bit fields, so they are written as
-- division and remainder; the two sides of `|` share no bit, so it is a sum.
use yengine.Base.{ℕ, ◌+◌, ◌*◌, ◌/◌, ◌%◌, ◌^◌, ◌<◌, ◌≡◌, arith}

unfoldable pub get_cnt : ℕ → ℕ
get_cnt value = value / 2 ^ 56

unfoldable pub get_num : ℕ → ℕ
get_num value = value % 2 ^ 56

-- The shift drops what passes bit 63, so the counter goes round at 256.
unfoldable pub construct_value : ℕ → ℕ → ℕ
construct_value count number = (count * 2 ^ 56) % 2 ^ 64 + number % 2 ^ 56

unfoldable pub construct_next_value : ℕ → ℕ → ℕ
unfolding construct_value
construct_next_value count number = construct_value (count + 1) number

-- The parts of a constructed value are the counter modulo 256 and the number modulo 2 ^ 56, and the
-- value fits 64 bits.
pub construct_value_parts :
    (count number : ℕ)
    → (get_cnt (construct_value count number) ≡ count % 256)
      × (get_num (construct_value count number) ≡ number % 2 ^ 56)
      × (construct_value count number < 2 ^ 64)
unfolding get_cnt get_num construct_value
construct_value_parts count number = omega arith

-- A 64-bit value is constructed from its parts.
pub construct_value-parts_of :
    (value : ℕ) → value < 2 ^ 64 → construct_value (get_cnt value) (get_num value) ≡ value
unfolding get_cnt get_num construct_value
construct_value-parts_of value h = omega arith
