-- ===== src/Headers/Macros.antt =====
-- The macros of ycommon/headers/macros.h on powers of two, for 64-bit operands.
use yengine.Base.{
  ℕ, zero, suc, ◌+◌, ◌-◌, ◌*◌, ◌/◌, ◌%◌, ◌^◌, ◌≤◌, ◌<◌, ◌≡◌, sym, ap, ◌∙◌, ◌⊎◌, inl, inr, Bool,
  true, arith, ◌==◌, ==_iff, add64, sub64,
}
use native.Mathlib.Nat.{div-div-eq-div-mul, div-mul-le_self, lt-div-mul-add, mul-mod_left}

-- `a & b` on the lowest `bits` bits
unfoldable pub and_bits : ℕ → ℕ → ℕ → ℕ
and_bits zero a b = 0
and_bits (suc bits) a b = (a % 2) * (b % 2) + 2 * and_bits bits (a / 2) (b / 2)

-- `~a`
abbrev pub not64 : ℕ → ℕ
not64 a = 2 ^ 64 - 1 - a % 2 ^ 64

unfoldable pub is_power_of_2 : ℕ → Bool
is_power_of_2 num = and_bits 64 num (sub64 num 1) == 0

unfoldable pub round_down : ℕ → ℕ → ℕ
round_down num alignment = and_bits 64 num (not64 (sub64 alignment 1))

unfoldable pub round_up : ℕ → ℕ → ℕ
round_up num alignment = round_down (add64 num (sub64 alignment 1)) alignment

abbrev power : ℕ → ℕ
power zero = 1
power (suc k) = 2 * power k

power_pos : (k : ℕ) → 0 < power k
power_pos zero = omega arith
power_pos (suc k) = omega (arith, power_pos k)

parity : (a : ℕ) → (a % 2 ≡ 0) ⊎ (a % 2 ≡ 1)
parity a = omega arith

power_mono : (k bits : ℕ) → k ≤ bits → power k ≤ power bits
power_mono zero bits h = omega (arith, power_pos bits)
power_mono (suc k) zero h = absurd (omega arith)
power_mono (suc k) (suc bits) h = omega (arith, power_mono k bits (omega arith))

and_bits_self : (bits a : ℕ) → a < power bits → and_bits bits a a ≡ a
unfolding and_bits
and_bits_self zero a h = omega arith
and_bits_self (suc bits) a h =
    let rest = and_bits_self bits (a / 2) (omega arith) in
    elim (parity a) [
      | inl even ↦ rw (rest, even) (omega arith)
      | inr odd ↦ rw (rest, odd) (omega arith)
    ]

and_bits_ones : (bits a : ℕ) → a < power bits → and_bits bits a (power bits - 1) ≡ a
unfolding and_bits
and_bits_ones zero a h = omega arith
and_bits_ones (suc bits) a h =
    let rest = and_bits_ones bits (a / 2) (omega arith) in
    let ones : (2 * power bits - 1) / 2 ≡ power bits - 1 = omega arith in
    let one : (2 * power bits - 1) % 2 ≡ 1 = omega (arith, power_pos bits) in
    rw (ones, rest, one) (omega arith)

-- A mask without its lowest k bits clears them.
and_bits_high :
    (bits k a : ℕ)
    → k ≤ bits
    → a < power bits
    → and_bits bits a (power bits - power k) ≡ a / power k * power k
unfolding and_bits
and_bits_high bits zero a k h = rw (and_bits_ones bits a h) (omega arith)
and_bits_high zero (suc k) a l h = absurd (omega arith)
and_bits_high (suc bits) (suc k) a l h =
    let rest = and_bits_high bits k (a / 2) (omega arith) (omega arith) in
    let half : (2 * power bits - 2 * power k) / 2 ≡ power bits - power k = omega arith in
    let even : (2 * power bits - 2 * power k) % 2 ≡ 0 = omega arith in
    let nested : a / (2 * power k) ≡ a / 2 / power k = sym (div-div-eq-div-mul a 2 (power k)) in
    rw (half, rest, even, nested) (grind arith)

-- Only a power of two shares no bit with its predecessor.
power_of_disjoint :
    (bits a : ℕ)
    → 0 < a
    → a < power bits
    → and_bits bits a (a - 1) ≡ 0
    → (k : ℕ) × (a ≡ power k) × (k < bits)
unfolding and_bits
power_of_disjoint zero a p h e = absurd (omega arith)
power_of_disjoint (suc bits) a p h e = elim (parity a) [
  | inl even ↦
      let half : (a - 1) / 2 ≡ a / 2 - 1 = omega arith in
      let (k, is, l) =
        power_of_disjoint bits (a / 2) (omega arith) (omega arith) (grind (arith, e, half)) in
      (suc k, omega arith, omega arith)
  | inr odd ↦
      let half : (a - 1) / 2 ≡ a / 2 = omega arith in
      let rest = and_bits_self bits (a / 2) (omega arith) in
      (0, grind (arith, e, half, rest), omega arith)
]

-- Rounding down to a power of two.
round_down-power :
    (num k : ℕ) → k < 64 → num < 2 ^ 64 → round_down num (power k) ≡ num / power k * power k
unfolding round_down
round_down-power num k l h =
    let size : power k ≤ power 64 = power_mono k 64 (omega (arith, l)) in
    let mask : not64 (sub64 (power k) 1) ≡ power 64 - power k = omega (arith, size, power_pos k) in
    rw mask (and_bits_high 64 k num (omega (arith, l)) h)

round_up-power :
    (num k : ℕ)
    → k < 64
    → num + power k < 2 ^ 64
    → round_up num (power k) ≡ (num + (power k - 1)) / power k * power k
unfolding round_up
round_up-power num k l h =
    let top : add64 num (sub64 (power k) 1) ≡ num + (power k - 1) = omega (arith, power_pos k) in
    rw top (round_down-power (num + (power k - 1)) k l (omega arith))

-- What IS_POWER_OF_2 accepts, besides zero, is a power of two.
power_of :
    (a : ℕ) → 0 < a → a < 2 ^ 64 → is_power_of_2 a ≡ true → (k : ℕ) × (a ≡ power k) × (k < 64)
unfolding is_power_of_2
power_of a positive fits is_power =
    let before : sub64 a 1 ≡ a - 1 = omega arith in
    power_of_disjoint 64 a positive fits
      ((==_iff _ 0).0 (ap (λ b. and_bits 64 a b == 0) (sym before) ∙ is_power))

-- For a power of two, ROUND_UP gives the least multiple of it from the number on, where the sum of
-- the two fits 64 bits.
pub round_up_lem :
    (num alignment : ℕ)
    → is_power_of_2 alignment ≡ true
    → 0 < alignment
    → num + alignment < 2 ^ 64
    → (round_up num alignment % alignment ≡ 0)
      × (num ≤ round_up num alignment)
      × (round_up num alignment < num + alignment)
round_up_lem num alignment is_power positive fits =
    let (k, is, l) = power_of alignment positive (omega arith) is_power in
    let value = round_up-power num k l (omega (arith, is, power_pos k)) in
    let low = div-mul-le_self (num + (power k - 1)) (power k) in
    let high = lt-div-mul-add {a = num + (power k - 1)} (power_pos k) in
    rw (is, value)
      (mul-mod_left _ (power k), omega (arith, high, power_pos k), omega (arith, low, power_pos k))
