-- ===== src/Containers/AtomicQueue/Positions.antt =====
-- Where the head and the tail of an AtomicQueue stand: in which lap round the buffer, and at which place.
use native.Mathlib.Nat.{mul-div_cancel_left}
use yengine.Base.{
  ℕ, ◌+◌, ◌*◌, ◌/◌, ◌%◌, ◌^◌, ◌≤◌, ◌<◌, ◌≡◌, sym, ap, ◌∙◌, ◌≢◌, arith, ℕ_discrete, ◌==◌,
  if◌then◌else◌, mul64, add64,
}
use yengine.Containers.AtomicQueue.{AtomicQueue, num_items, advance}
use yengine.Headers.AtomicNumberMask.{
  get_cnt, get_num, construct_value, construct_next_value, construct_value_parts,
}

-- The value of a head or tail in a lap and at a place.
abbrev pub encode : ℕ → ℕ → ℕ → ℕ
encode size lap slot = construct_value lap (size * slot)

-- A buffer of at least one place, whose places have at least one byte, and whose size leaves the upper
-- 8 bits of a 64-bit value alone.
pub record Fits (size places : ℕ) : Type 0 where
  pub sized : 0 < size
  pub some_places : 0 < places
  pub narrow : size * places < 2 ^ 56

abbrev pub next_lap : ℕ → ℕ → ℕ → ℕ
next_lap places lap slot = if slot + 1 == places then lap + 1 else lap

abbrev pub next_slot : ℕ → ℕ → ℕ
next_slot places slot = if slot + 1 == places then 0 else slot + 1

construct_value_mod :
    (lap number : ℕ) → construct_value (lap % 256) number ≡ construct_value lap number
unfolding construct_value
construct_value_mod lap number = omega arith

next_of : (size lap : ℕ) → construct_next_value (lap % 256) 0 ≡ construct_value (lap + 1) (size * 0)
unfolding construct_next_value construct_value
next_of size lap = omega arith

module _ (size places : ℕ) (f : Fits size places) where
  -- An offset of a place keeps clear of the end by one place.
  pub offset-le : (slot : ℕ) → slot < places → size * slot + size ≤ size * places
  offset-le slot h = grind arith

  pub offset_inj : (a b : ℕ) → size * a ≡ size * b → a ≡ b
  offset_inj a b e = grind (arith, f.sized)

  pub get_num-encode : (lap slot : ℕ) → slot < places → get_num (encode size lap slot) ≡ size * slot
  get_num-encode lap slot h =
      omega (arith, (construct_value_parts lap (size * slot)).1, offset-le slot h, f.narrow)

  pub place_of : (slot : ℕ) → (size * slot) / size ≡ slot
  place_of slot = mul-div_cancel_left slot f.sized

  get_cnt-encode : (lap slot : ℕ) → get_cnt (encode size lap slot) ≡ lap % 256
  get_cnt-encode lap slot = (construct_value_parts lap (size * slot)).0

  -- Two places in two laps have one value exactly where the places are one and the laps agree modulo
  -- 256.
  pub encode_inj :
      (lap slot lap' slot' : ℕ)
      → slot < places
      → slot' < places
      → encode size lap slot ≡ encode size lap' slot'
      → (lap % 256 ≡ lap' % 256) × (slot ≡ slot')
  encode_inj lap slot lap' slot' h h' e = (
    sym (get_cnt-encode lap slot) ∙ ap get_cnt e ∙ get_cnt-encode lap' slot',
    offset_inj slot slot'
        (sym (get_num-encode lap slot h) ∙ ap get_num e ∙ get_num-encode lap' slot' h'),
  )

  pub encode_congr :
      (lap slot lap' : ℕ) → lap % 256 ≡ lap' % 256 → encode size lap slot ≡ encode size lap' slot
  unfolding construct_value
  encode_congr lap slot lap' e = omega arith

  -- Moving on by one item moves to the next place, into the next lap from the last place.
  pub advance-encode {ℓ} :
      {A : Type ℓ} (q : AtomicQueue A) (lap slot : ℕ)
      → q.item_size ≡ size
      → num_items q ≡ places
      → slot < places
      → advance q (encode size lap slot)
        ≡ encode size (next_lap places lap slot) (next_slot places slot)
  advance-encode q lap slot same-size same-places h =
      let num = get_num-encode lap slot h in
      let cnt = get_cnt-encode lap slot in
      let step = offset-le slot h in
      let new_num : add64 (get_num (encode size lap slot)) q.item_size ≡ size * (slot + 1) =
        omega (arith, num, f.narrow) in
      let whole : mul64 q.item_size (num_items q) ≡ size * places =
        rw (same-size, same-places) (omega (arith, f.narrow)) in
      elim (ℕ_discrete (slot + 1) places) [
        | yes last ↦ ground (arith, new_num, whole, cnt, last, next_of size lap)
        | no more ↦
            let apart : size * (slot + 1) ≢ size * places =
              λ e. more (offset_inj (slot + 1) places e) in
            ground
              (arith, new_num, whole, cnt, more, apart, construct_value_mod lap (size * (slot + 1)))
      ]
