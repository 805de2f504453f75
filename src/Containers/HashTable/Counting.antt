-- ===== src/Containers/HashTable/Counting.antt =====
-- GetCurrentSize of HashTable against the number of slots that hold a key.
use yengine.Base.{
  ℕ, zero, suc, ◌+◌, ◌*◌, ◌<◌, ◌≡◌, ◌≢◌, inl, inr, List, [], ◌∷◌, some, arith, ◌==◌, ◌||◌,
  if◌then◌else◌, length, get_or, set, Option-cases, ok, add32,
}
use yengine.Containers.HashTable.{
  HashTable, empty_value, removed_value, max_tries, insert_slot, find_slot, insert_at,
  value_pointer, insert, get_value,
}
use yengine.Containers.HashTable.Insertion.{IsValid}
use yengine.Containers.HashTable.Probe.{
  IsKey, Takes, insert_slot-Takes, Finds, find_slot-Finds, Finds-find_slot,
}
use yengine.Containers.HashTable.Removal.{insert_in_range}

abbrev pub weight : ℕ → ℕ
weight key = if key == removed_value || key == empty_value then 0 else 1

-- how many slots hold a key
pub occupied : List ℕ → ℕ
occupied [] = 0
occupied (key ∷ keys) = weight key + occupied keys

pub occupied-set :
    (keys : List ℕ) (p v : ℕ)
    → p < length keys
    → occupied (set keys p v) + weight (get_or keys p empty_value) ≡ occupied keys + weight v
unfolding occupied
occupied-set [] p v h = absurd (omega arith)
occupied-set (x ∷ xs) zero v h = omega arith
occupied-set (x ∷ xs) (suc p) v h = omega (arith, occupied-set xs p v (omega arith))

-- Insert takes the slot where the key is found exactly if the slot holds the key.
taken-found :
    (keys : List ℕ) (k p : ℕ)
    → insert_slot keys k max_tries 0 ≡ some p
    → get_or keys p empty_value ≡ k
    → find_slot keys k max_tries 0 ≡ some p
taken-found keys k p h held =
    let w : Takes keys k 0 max_tries p = insert_slot-Takes keys k max_tries 0 h in
    Finds-find_slot keys k max_tries 0 (record {
      at = w.at;
      after_from = w.after_from;
      within = w.within;
      index = w.index;
      holds = ground (arith, w.index, held);
      first =
          λ s a b. (λ c. ground (arith, w.first s a b, c), λ c. ground (arith, w.first s a b, c));
    })

found-held :
    (keys : List ℕ) (k p : ℕ)
    → find_slot keys k max_tries 0 ≡ some p
    → get_or keys p empty_value ≡ k
found-held keys k p h =
    let f : Finds keys k 0 max_tries p = find_slot-Finds keys k max_tries 0 h in
    ground (arith, f.index, f.holds)

mul_cancel : (a b m : ℕ) → 0 < m → a * m ≡ b * m → a ≡ b
mul_cancel a b m pos e = grind arith

-- In a valid table for values of at least one byte, a successful Insert under a key that is not
-- reserved adds one, modulo 2^32, to the size that GetCurrentSize returns; one more slot holds a
-- key if Insert returns another address than the one where the key was found before, and no more if
-- it returns the same.
pub current_size-insert :
    (t : HashTable) (k : ℕ) (value : List ℕ) {pointer : ℕ} {t' : HashTable}
    → IsValid t
    → IsKey k
    → 0 < t.max_value_size
    → insert t k value ≡ ok (pointer, t')
    → (t'.current_entries ≡ add32 t.current_entries 1)
      × (get_value t k ≡ ok (some pointer) → occupied t'.keys ≡ occupied t.keys)
      × (get_value t k ≢ ok (some pointer) → occupied t'.keys ≡ occupied t.keys + 1)
unfolding insert insert_at get_value
current_size-insert t k value {pointer} {t'} v key pos e =
    elim (Option-cases (insert_slot t.keys k max_tries 0)) [
      | inl full ↦ ground (arith, full)
      | inr (p, h) ↦
          let wide : 0 < length t.keys = omega (arith, v.wide) in
          let w : Takes t.keys k 0 max_tries p = insert_slot-Takes t.keys k max_tries 0 h in
          let same : insert_at t k value p ≡ t' = ground (arith, e, h) in
          let address : value_pointer t p ≡ pointer = ground (arith, e, h) in
          let count = occupied-set t.keys p k (insert_in_range t.keys k p wide h) in
          (
            ground (arith, same),
            λ again. elim (Option-cases (find_slot t.keys k max_tries 0)) [
              | inl absent ↦ ground (arith, absent, again)
              | inr (q, f) ↦
                  let at_q : value_pointer t q ≡ pointer = ground (arith, again, f, wide) in
                  let q-p : q ≡ p =
                    mul_cancel q p t.max_value_size pos (omega (arith, at_q, address)) in
                  ground (arith, same, count, q-p, found-held t.keys k q f)
            ],
            λ fresh.
                let other : get_or t.keys p empty_value ≢ k = λ held.
                  fresh (rw (taken-found t.keys k p h held) (ground (arith, wide, address))) in
                ground (arith, same, count, key.0, key.1, w.free, w.index, other),
          )
    ]
