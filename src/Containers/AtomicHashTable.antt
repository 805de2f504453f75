-- ===== src/Containers/AtomicHashTable.antt =====
-- class AtomicHashTable of ycommon/containers/atomic_hash_table.h and atomic_hash_table.cpp, as one
-- thread at a time calls it.
pub mod OneThread
mod Tests
use yengine.Base.{
  ℕ, zero, suc, ◌+◌, ◌-◌, ◌*◌, ◌/◌, ◌%◌, Bool, true, false, ◌&&◌, ◌||◌, List, [], Option, none,
  some, leb, ltb, ◌==◌, if◌then◌else◌, length, get_or, set, replicate, memcpy, Run, ok, fault,
  assertion, division_by_zero, ◌>>=◌, ◌>>◌, require, assert, add64, mul64, add32, sub32, none64,
}
use yengine.Containers.HashTable.{
  HashTable, num_entries, value_table, value_pointer, empty_value, removed_value, max_tries,
  try_index, find_slot,
}
use mathlib.Core.Option

-- The fields are those of HashTable.
abbrev pub AtomicHashTable : Type 0
AtomicHashTable = HashTable

-- PLACEHOLDER_VALUE
abbrev pub placeholder_value : ℕ
placeholder_value = none64 - 1

pub allocation_size : ℕ → ℕ → ℕ
allocation_size num_entries max_value_size = mul64 (add64 max_value_size 8) num_entries

pub clear : AtomicHashTable → AtomicHashTable
clear t = record t { keys = replicate (num_entries t) empty_value; current_entries = 0 }

-- AtomicHashTable(), and Reset
pub reset : AtomicHashTable
reset = record { buffer = 0; keys = []; values = []; current_entries = 0; max_value_size = 0 }

-- `slots` is what the memory behind the keys holds; Init leaves it as it is.
pub init : ℕ → ℕ → ℕ → ℕ → List (List ℕ) → Run AtomicHashTable
init buffer buffer_size num_entries max_value_size slots = do
  assert (buffer % 8 == 0)
  assert (leb max_tries num_entries)
  let entry_size = add64 8 max_value_size
  let total_table_size = mul64 entry_size num_entries
  assert (leb total_table_size buffer_size)
  ok (
      clear (record {
        buffer = buffer;
        keys = replicate num_entries empty_value;
        values = slots;
        current_entries = 0;
        max_value_size = max_value_size;
      }))

-- AtomicCmpSet64 on the key at an index: whether it was the old one, and the keys after it
unfoldable pub cmp_set64 : List ℕ → ℕ → ℕ → ℕ → Bool × List ℕ
cmp_set64 keys index old new =
    if get_or keys index empty_value == old then (true, set keys index new) else (false, keys)

-- The test of Insert's loop: whether it takes the slot at an index, and the keys after it.
unfoldable pub take : List ℕ → ℕ → ℕ → Bool × List ℕ
take keys hash_key index =
    let found = get_or keys index empty_value in
    if found == hash_key
    then (true, keys)
    else if found == empty_value
    then cmp_set64 keys index empty_value placeholder_value
    else if found == removed_value
    then cmp_set64 keys index removed_value placeholder_value
    else (false, keys)

-- The loop of Insert, from try `i` on: the index that it takes, and the keys with the hash key there.
unfoldable pub insert_slot : List ℕ → ℕ → ℕ → ℕ → Option (ℕ × List ℕ)
insert_slot keys hash_key zero i = none
insert_slot keys hash_key (suc tries) i =
    let index = try_index hash_key i (length keys) in
    let taken = take keys hash_key index in
    let rest = insert_slot taken.1 hash_key tries (i + 1) in
    if taken.0 then some (index, set taken.1 index hash_key) else rest

-- Insert(hash_key, value, value_size): the address of the value, and the table
unfoldable pub insert : AtomicHashTable → ℕ → List ℕ → Run (ℕ × AtomicHashTable)
insert t hash_key value = do
  assert (leb (length value) t.max_value_size)
  require (ltb 0 (num_entries t)) division_by_zero
  elim (insert_slot t.keys hash_key max_tries 0) [
    | some slot ↦ ok (
      value_pointer t slot.0,
      record t {
        keys = slot.1;
        values = set t.values slot.0 (memcpy (get_or t.values slot.0 []) value);
        current_entries = add32 t.current_entries 1;
      },
    )
    | none ↦ fault assertion
  ]

-- The loop of Remove, from try `i` on: the keys where it removes one.
pub remove_slot : List ℕ → ℕ → ℕ → ℕ → Option (List ℕ)
remove_slot keys hash_key zero i = none
remove_slot keys hash_key (suc tries) i =
    let index = try_index hash_key i (length keys) in
    let found = get_or keys index empty_value in
    let swapped =
      if found == hash_key then cmp_set64 keys index hash_key removed_value else (false, keys) in
    let rest = remove_slot swapped.1 hash_key tries (i + 1) in
    if swapped.0 then some swapped.1 else if found == empty_value then none else rest

-- Remove(hash_key)
pub remove : AtomicHashTable → ℕ → Run (Bool × AtomicHashTable)
remove t hash_key = do
  require (ltb 0 (num_entries t)) division_by_zero
  elim (remove_slot t.keys hash_key max_tries 0) [
    | some keys ↦ ok (true, record t { keys = keys; current_entries = sub32 t.current_entries 1 })
    | none ↦ ok (false, t)
  ]

-- Remove(hash_table_value), by the address of the value
pub remove_value : AtomicHashTable → ℕ → Run (Bool × AtomicHashTable)
remove_value t pointer = do
  let table = value_table t
  assert (leb table pointer && ltb pointer (table + t.max_value_size * num_entries t))
  assert ((pointer - table) % t.max_value_size == 0)
  let index = (pointer - table) / t.max_value_size
  let hash_key = get_or t.keys index empty_value
  if hash_key == removed_value || hash_key == empty_value then ok (false, t) else (do
    let swapped = cmp_set64 t.keys index hash_key removed_value
    ok (
        if swapped.0
        then (true, record t { keys = swapped.1; current_entries = sub32 t.current_entries 1 })
        else (false, t)))

-- GetValue(hash_key), whose loop is that of HashTable: the address of the value, or NULL
pub get_value : AtomicHashTable → ℕ → Run (Option ℕ)
get_value t hash_key = do
  require (ltb 0 (num_entries t)) division_by_zero
  ok (Option.map (value_pointer t) (find_slot t.keys hash_key max_tries 0))

-- The overloads that take the bytes of a key; `hash64` is ycommon::utils::Hash::Hash64.
module _ (hash64 : List ℕ → ℕ) where
  -- the address of the value, the hash key passed out, and the table
  unfoldable pub insert_key : AtomicHashTable → List ℕ → List ℕ → Run (ℕ × ℕ × AtomicHashTable)
  insert_key t key value = do
    let hash_key_value = hash64 key
    (pointer, t') ← insert t hash_key_value value
    ok (pointer, hash_key_value, t')

  pub get_value_key : AtomicHashTable → List ℕ → Run (Option ℕ)
  get_value_key t key = get_value t (hash64 key)

  pub remove_key : AtomicHashTable → List ℕ → Run (Bool × AtomicHashTable)
  remove_key t key = remove t (hash64 key)
