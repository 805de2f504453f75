-- ===== src/Containers/AtomicHashTable/OneThread.antt =====
-- With one thread, AtomicHashTable does what HashTable does.
use yengine.Base.{
  ℕ, zero, suc, ◌+◌, ◌-◌, ◌*◌, ◌/◌, ◌%◌, ◌≡◌, refl, inl, inr, Bool, true, false, ◌&&◌, ◌||◌, List,
  [], Option, none, some, arith, ◌==◌, ltb, leb, length, get_or, set, Run, ok, ok-bind,
  ok-injective, sym, fault, assertion, division_by_zero, assert, require, ◌>>◌, memcpy, add32,
  sub32, Bool-cases, ==_refl, set-set, ℕ_discrete, eq→==, ne→==, ap, ◌∙◌,
}
use yengine.Containers.HashTable
use yengine.Containers.HashTable.{
  HashTable, value_table, value_pointer, insert_at, remove_at, empty_value, removed_value, is_free,
  try_index, key_at, find_slot,
}
use yengine.Containers.AtomicHashTable.{
  placeholder_value, cmp_set64, take, insert_slot, insert, remove_slot, remove, remove_value,
  get_value, insert_key,
}
use mathlib.Core.Option

cmp_set64_same :
    (keys : List ℕ) (i old new : ℕ)
    → get_or keys i empty_value ≡ old
    → cmp_set64 keys i old new ≡ (true, set keys i new)
unfolding cmp_set64
cmp_set64_same keys i old new e = rw e (rw (==_refl old) refl)

-- A slot is taken exactly if the loop of HashTable takes it.
take_free :
    (keys : List ℕ) (k i : ℕ)
    → is_free k (get_or keys i empty_value) ≡ true
    → ((take keys k i).0 ≡ true) × (set (take keys k i).1 i k ≡ set keys i k)
unfolding take
take_free keys k i free =
    let found = get_or keys i empty_value in
    elim (ℕ_discrete found k) [
      | yes e ↦ rw (eq→== found k e) (refl, refl)
      | no other ↦ elim (ℕ_discrete found empty_value) [
        | yes e ↦
            rw
              (
                ne→== found k other,
                eq→== found empty_value e,
                cmp_set64_same keys i empty_value placeholder_value e,
              )
              (refl, set-set keys i placeholder_value k)
        | no full ↦ elim (ℕ_discrete found removed_value) [
          | yes e ↦
              rw
                (
                  ne→== found k other,
                  ne→== found empty_value full,
                  eq→== found removed_value e,
                  cmp_set64_same keys i removed_value placeholder_value e,
                )
                (refl, set-set keys i placeholder_value k)
          | no kept ↦ absurd (
              cc (
                rw
                  (
                    ne→== found k other,
                    ne→== found empty_value full,
                    ne→== found removed_value kept,
                  )
                  at free))
        ]
      ]
    ]

take_full :
    (keys : List ℕ) (k i : ℕ)
    → is_free k (get_or keys i empty_value) ≡ false
    → take keys k i ≡ (false, keys)
unfolding take
take_full keys k i full = let found = get_or keys i empty_value in ground (arith, full)

insert_slot_same :
    (keys : List ℕ) (k tries i : ℕ)
    → insert_slot keys k tries i
      ≡ Option.map (λ i. (i, set keys i k)) (HashTable.insert_slot keys k tries i)
unfolding insert_slot HashTable.insert_slot
insert_slot_same keys k zero i = refl
insert_slot_same keys k (suc tries) i =
    let index = try_index k i (length keys) in
    elim (Bool-cases (is_free k (get_or keys index empty_value))) [
      | inl free ↦
          let (takes, placed) = take_free keys k index free in
          rw (takes, free) (ap (λ keys. some (index, keys)) placed)
      | inr full ↦ rw (take_full keys k index full, full) (insert_slot_same keys k tries (i + 1))
    ]

remove_slot_same :
    (keys : List ℕ) (k tries i : ℕ)
    → remove_slot keys k tries i
      ≡ Option.map (λ i. set keys i removed_value) (find_slot keys k tries i)
unfolding remove_slot find_slot
remove_slot_same keys k zero i = refl
remove_slot_same keys k (suc tries) i =
    let index = try_index k i (length keys) in
    let found = get_or keys index empty_value in
    elim (ℕ_discrete found k) [
      | yes e ↦ rw (eq→== found k e, cmp_set64_same keys index k removed_value e) refl
      | no other ↦ elim (Bool-cases (found == empty_value)) [
        | inl empty ↦ rw (ne→== found k other, empty) refl
        | inr full ↦ rw (ne→== found k other, full) (remove_slot_same keys k tries (i + 1))
      ]
    ]

-- What Insert and Remove make of the result of their loops.
inserted : HashTable → List ℕ → Option (ℕ × List ℕ) → Run (ℕ × HashTable)
inserted t value o = elim o [
  | some slot ↦ ok (
    value_pointer t slot.0,
    record t {
      keys = slot.1;
      values = set t.values slot.0 (memcpy (get_or t.values slot.0 []) value);
      current_entries = add32 t.current_entries 1;
    },
  )
  | none ↦ fault assertion
]

inserted-map :
    (t : HashTable) (k : ℕ) (value : List ℕ) (o : Option ℕ)
    → inserted t value (Option.map (λ i. (i, set t.keys i k)) o) ≡ (elim o [
      | some index ↦ ok (value_pointer t index, insert_at t k value index)
      | none ↦ fault assertion
    ])
unfolding inserted insert_at
inserted-map t k value none = refl
inserted-map t k value (some index) = refl

removed : HashTable → Option (List ℕ) → Run (Bool × HashTable)
removed t o = elim o [
  | some keys ↦ ok (true, record t { keys = keys; current_entries = sub32 t.current_entries 1 })
  | none ↦ ok (false, t)
]

removed-map :
    (t : HashTable) (o : Option ℕ)
    → removed t (Option.map (λ i. set t.keys i removed_value) o)
      ≡ (elim o [ some index ↦ ok (true, remove_at t index) | none ↦ ok (false, t) ])
unfolding removed remove_at
removed-map t none = refl
removed-map t (some index) = refl

pub same_insert :
    (t : HashTable) (k : ℕ) (value : List ℕ) → insert t k value ≡ HashTable.insert t k value
unfolding insert HashTable.insert inserted
same_insert t k value =
    ap
      (λ r. do
        assert (leb (length value) t.max_value_size)
        require (ltb 0 (length t.keys)) division_by_zero
        r)
      (ap (inserted t value) (insert_slot_same t.keys k 10 0)
        ∙ inserted-map t k value (HashTable.insert_slot t.keys k 10 0))

same_remove : (t : HashTable) (k : ℕ) → remove t k ≡ HashTable.remove t k
unfolding remove HashTable.remove removed
same_remove t k =
    ap (λ r. do require (ltb 0 (length t.keys)) division_by_zero; r)
      (ap (removed t) (remove_slot_same t.keys k 10 0) ∙ removed-map t (find_slot t.keys k 10 0))

same_remove_value :
    (t : HashTable) (pointer : ℕ) → remove_value t pointer ≡ HashTable.remove_value t pointer
unfolding remove_value HashTable.remove_value remove_at
same_remove_value t pointer =
    let index = (pointer - value_table t) / t.max_value_size in
    let hash_key = get_or t.keys index empty_value in
    ap
      (λ r. do
        assert (
            leb (value_table t) pointer
            && ltb pointer (value_table t + t.max_value_size * length t.keys))
        assert ((pointer - value_table t) % t.max_value_size == 0)
        r)
      (elim (Bool-cases (hash_key == removed_value || hash_key == empty_value)) [
        | inl unused ↦ rw unused refl
        | inr used ↦ rw (used, cmp_set64_same t.keys index hash_key removed_value refl) refl
      ])

pub same_get_value : (t : HashTable) (k : ℕ) → get_value t k ≡ HashTable.get_value t k
unfolding get_value HashTable.get_value
same_get_value t k = refl

-- Insert of the bytes of a key is that of its hash key, which it passes out.
pub insert_key-run :
    (hash64 : List ℕ → ℕ) (t : HashTable) (key value : List ℕ) {out : ℕ × ℕ × HashTable}
    → insert_key hash64 t key value ≡ ok out
    → (HashTable.insert t (hash64 key) value ≡ ok (out.0, out.2)) × (out.1 ≡ hash64 key)
unfolding insert_key
insert_key-run hash64 t key value {out} e =
    let (made, run, last) = ok-bind (insert t (hash64 key) value) _ e in
    let same : (made.0, hash64 key, made.1) ≡ out = ok-injective _ _ last in
    (
      sym (same_insert t (hash64 key) value)
          ∙ run
          ∙ ap (λ (o : ℕ × ℕ × HashTable). ok (o.0, o.2)) same,
      sym (ap (λ (o : ℕ × ℕ × HashTable). o.1) same),
    )

-- Called by one thread, Insert, Remove by key and by value, and GetValue of AtomicHashTable end as
-- those of HashTable do on the same table, with the same result, table and faults, though Insert
-- claims a slot with a third reserved key before it writes there.
pub same_calls :
    (t : HashTable) (k pointer : ℕ) (value : List ℕ)
    → (insert t k value ≡ HashTable.insert t k value)
      × (remove t k ≡ HashTable.remove t k)
      × (remove_value t pointer ≡ HashTable.remove_value t pointer)
      × (get_value t k ≡ HashTable.get_value t k)
same_calls t k pointer value =
    (same_insert t k value, same_remove t k, same_remove_value t pointer, same_get_value t k)
