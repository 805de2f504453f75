-- ===== src/Containers/HashTable/Copies.antt =====
-- Insert of HashTable over a removed slot, and Remove by the address of a value.
use yengine.Base.{
  ℕ, ◌+◌, ◌-◌, ◌*◌, ◌/◌, ◌%◌, ◌<◌, ◌≡◌, refl, subst, ◌≢◌, inl, inr, true, List, some, arith, length,
  get_or, set, length-set, Option-cases, ok, Returns,
}
use yengine.Containers.HashTable.{
  HashTable, num_entries, empty_value, max_tries, insert_slot, find_slot, insert_at, remove_at,
  value_pointer, value_table, insert, remove, remove_value, get_value,
}
use yengine.Containers.HashTable.Insertion.{IsValid}
use yengine.Containers.HashTable.Lookup.{find-insert_self}
use yengine.Containers.HashTable.Probe.{IsKey, Finds, find_slot-Finds}
use yengine.Containers.HashTable.Removal.{index_in_range, find-remove-insert_stale}

-- Where a valid table holds a key that is not reserved and Insert returns another address than the
-- one at which it was found, Remove of the key returns true and GetValue still returns the old
-- address.
pub remove-insert_stale :
    (t : HashTable) (k : ℕ) (value : List ℕ) {old pointer : ℕ} {t' : HashTable}
    → IsValid t
    → IsKey k
    → get_value t k ≡ ok (some old)
    → insert t k value ≡ ok (pointer, t')
    → pointer ≢ old
    → Returns (remove t' k) λ out. (out.0 ≡ true) × (get_value out.1 k ≡ ok (some old))
unfolding insert insert_at remove remove_at get_value
remove-insert_stale t k value {old = old} {t' = t'} v key there e ne =
    elim (Option-cases (insert_slot t.keys k max_tries 0)) [
      | inl full ↦ ground (arith, full)
      | inr (q, h) ↦ elim (Option-cases (find_slot t.keys k max_tries 0)) [
        | inl absent ↦ ground (arith, absent)
        | inr (p, f) ↦
            let wide : 0 < length t.keys = omega (arith, v.wide) in
            let wide' : 0 < length (set t.keys q k) = rw length-set wide in
            let address : value_pointer t p ≡ old = ground (arith, there, f, wide) in
            let apart : q ≢ p = λ same. ne (ground (arith, e, h, address, same, wide)) in
            let same : insert_at t k value q ≡ t' = ground (arith, e, h) in
            let stale = find-remove-insert_stale t.keys k p q wide key f h apart in
            subst
              (λ t'.
                Returns (remove t' k) λ out. (out.0 ≡ true) × (get_value out.1 k ≡ ok (some old)))
              same
              (
                (true, remove_at (insert_at t k value q) q),
                ground (arith, wide', find-insert_self t.keys k q wide h),
                (refl, rw (stale, length-set, length-set) (ground (arith, wide, address))),
              )
      ]
    ]

-- In a valid table for values of at least one byte, Remove by the address that GetValue returned
-- for a key that is not reserved does what Remove by the key does.
pub remove_value-get_value :
    (t : HashTable) (k : ℕ) {pointer : ℕ}
    → IsValid t
    → IsKey k
    → 0 < t.max_value_size
    → get_value t k ≡ ok (some pointer)
    → remove_value t pointer ≡ remove t k
unfolding remove_value remove get_value
remove_value-get_value t k {pointer} v key pos there =
    elim (Option-cases (find_slot t.keys k max_tries 0)) [
      | inl absent ↦ ground (arith, absent)
      | inr (p, f) ↦
          let wide : 0 < length t.keys = omega (arith, v.wide) in
          let range = index_in_range t.keys k p wide f in
          let g : Finds t.keys k 0 max_tries p = find_slot-Finds t.keys k max_tries 0 f in
          let held : get_or t.keys p empty_value ≡ k = ground (arith, g.index, g.holds) in
          let address : value_pointer t p ≡ pointer = ground (arith, there, f, wide) in
          let offset : pointer - value_table t ≡ p * t.max_value_size = omega (arith, address) in
          let aligned : (p * t.max_value_size) % t.max_value_size ≡ 0 = grind arith in
          let index : (p * t.max_value_size) / t.max_value_size ≡ p = grind arith in
          let below : pointer < value_table t + t.max_value_size * num_entries t =
            grind (arith, address) in
          ground (arith, f, wide, offset, aligned, index, below, held, key.0, key.1, address)
    ]
