-- ===== src/Containers/HashTable/Removal.antt =====
-- What Remove of HashTable does to the search for every key, and how both writes keep the table
-- chained.
use yengine.Base.{
  ℕ, ◌<◌, ◌≡◌, ◌≢◌, List, none, some, arith, length, set, length-set, set-set, dec_lt, ℕ_discrete,
}
use yengine.Containers.HashTable.{
  empty_value, removed_value, max_tries, try_index, key_at, insert_slot, find_slot,
}
use yengine.Containers.HashTable.Lookup.{IsChained}
use yengine.Containers.HashTable.Probe.{
  IsKey, try_index-lt, key_at-set, Takes, insert_slot-Takes, Finds, find_slot-Finds,
  Finds-find_slot, find_slot-none,
}

-- The key stands at no other index of its tries.
abbrev pub IsSole : List ℕ → ℕ → ℕ → Type 0
IsSole keys k p = (s : ℕ) → s < max_tries → key_at keys k s ≡ k → try_index k s (length keys) ≡ p

module _ (keys : List ℕ) (k p : ℕ) (wide : 0 < length keys) where
  pub index_in_range : find_slot keys k max_tries 0 ≡ some p → p < length keys
  index_in_range h =
      let f : Finds keys k 0 max_tries p = find_slot-Finds keys k max_tries 0 h in
      rw f.index (try_index-lt keys k f.at wide)

  pub insert_in_range : insert_slot keys k max_tries 0 ≡ some p → p < length keys
  insert_in_range h =
      let w : Takes keys k 0 max_tries p = insert_slot-Takes keys k max_tries 0 h in
      rw w.index (try_index-lt keys k w.at wide)

  -- A key that stood at one index is not found once removed.
  pub find-remove_self :
      IsKey k
      → IsSole keys k p
      → find_slot keys k max_tries 0 ≡ some p
      → find_slot (set keys p removed_value) k max_tries 0 ≡ none
  find-remove_self key sole h =
      let lt = index_in_range h in
      find_slot-none (set keys p removed_value) k max_tries 0 (λ s _ b c.
        ground (arith, key_at-set keys p k removed_value s lt, c, key.1, sole s (omega arith)))

  -- The search for another key goes as before.
  pub find-remove_other :
      (j : ℕ)
      → IsKey k
      → IsKey j
      → j ≢ k
      → find_slot keys k max_tries 0 ≡ some p
      → (q : ℕ) → find_slot keys j max_tries 0 ≡ some q
      → find_slot (set keys p removed_value) j max_tries 0 ≡ some q
  find-remove_other j key-k key-j ne h q e =
      let lt = index_in_range h in
      let g : Finds keys k 0 max_tries p = find_slot-Finds keys k max_tries 0 h in
      let f : Finds keys j 0 max_tries q = find_slot-Finds keys j max_tries 0 e in
      Finds-find_slot (set keys p removed_value) j max_tries 0 (record {
        at = f.at;
        after_from = f.after_from;
        within = f.within;
        index = rw length-set f.index;
        holds =
            ground (arith, key_at-set keys p j removed_value f.at lt, f.holds, g.holds, g.index);
        first = λ s a b. (
          λ c.
              ground (arith, key_at-set keys p j removed_value s lt, (f.first s a b).0, key-j.1, c),
          λ c. ground (arith, key_at-set keys p j removed_value s lt, (f.first s a b).1, c),
        );
      })

  -- Insert keeps the table chained.
  pub set-IsChained_insert :
      IsChained keys → IsKey k → insert_slot keys k max_tries 0 ≡ some p → IsChained (set keys p k)
  set-IsChained_insert chained key-k h j t key-j b holds first s lt e =
      let w : Takes keys k 0 max_tries p = insert_slot-Takes keys k max_tries 0 h in
      let range = insert_in_range h in
      let old_s : key_at keys j s ≡ empty_value =
        ground (arith, key_at-set keys p j k s range, e, key-k.0) in
      elim (ℕ_discrete p (try_index j t (length keys))) [
        | no other ↦
            chained j t key-j b (ground (arith, key_at-set keys p j k t range, holds, other))
              (λ r lt. rw length-set at first r lt) s lt old_s
        | yes same ↦
            let j-k : j ≡ k = ground (arith, key_at-set keys p j k t range, holds, same) in
            elim (dec_lt t w.at) [
              | yes before ↦
                  ground (arith, w.first t (omega arith) before, w.free, w.index, same, j-k)
              | no not_before ↦ elim (dec_lt w.at t) [
                | yes after ↦
                    (rw length-set at first w.at after) (ground (arith, w.index, same, j-k))
                | no not_after ↦
                    let at-t : w.at ≡ t = omega arith in
                    ground (arith, w.first s (omega arith) (rw at-t lt), old_s, j-k)
              ]
            ]
      ]

  -- Remove keeps the table chained.
  pub set-IsChained_remove :
      IsChained keys → find_slot keys k max_tries 0 ≡ some p → IsChained (set keys p removed_value)
  set-IsChained_remove chained h j t key-j b holds first s lt e =
      let range = index_in_range h in
      chained j t key-j b
        (ground (arith, key_at-set keys p j removed_value t range, holds, key-j.1))
        (λ r lt. rw length-set at first r lt) s lt
        (ground (arith, key_at-set keys p j removed_value s range, e))

-- Where Insert takes another slot than the one that holds the key, the old slot stays behind and is
-- what the search finds after Remove.
pub find-remove-insert_stale :
    (keys : List ℕ) (k p q : ℕ)
    → 0 < length keys
    → IsKey k
    → find_slot keys k max_tries 0 ≡ some p
    → insert_slot keys k max_tries 0 ≡ some q
    → q ≢ p
    → find_slot (set (set keys q k) q removed_value) k max_tries 0 ≡ some p
find-remove-insert_stale keys k p q wide key-k h i ne =
    let f : Finds keys k 0 max_tries p = find_slot-Finds keys k max_tries 0 h in
    let range = insert_in_range keys k q wide i in
    rw set-set (
      Finds-find_slot (set keys q removed_value) k max_tries 0 (record {
        at = f.at;
        after_from = f.after_from;
        within = f.within;
        index = rw length-set f.index;
        holds = ground (arith, key_at-set keys q k removed_value f.at range, f.holds, f.index, ne);
        first = λ s a b. (
          λ c.
              ground
                (arith, key_at-set keys q k removed_value s range, (f.first s a b).0, key-k.1, c),
          λ c. ground (arith, key_at-set keys q k removed_value s range, (f.first s a b).1, c),
        );
      }))
