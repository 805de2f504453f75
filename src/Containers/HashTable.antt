-- ===== src/Containers/HashTable.antt =====
-- class HashTable of ycommon/containers/hash_table.h and hash_table.cpp.
pub mod Probe
pub mod Lookup
pub mod Removal
pub mod Insertion
pub mod Deletion
pub mod Copies
pub mod Counting
mod Tests
use yengine.Base.{
  ℕ, zero, suc, ◌+◌, ◌-◌, ◌*◌, ◌/◌, ◌%◌, Bool, true, false, ◌&&◌, ◌||◌, List, [], Option, none,
  some, leb, ltb, ◌==◌, if◌then◌else◌, length, get_or, set, replicate, memcpy, Run, ok, fault,
  assertion, division_by_zero, ◌>>=◌, ◌>>◌, require, assert, add64, mul64, add32, sub32, none64,
}
use mathlib.Core.Option

-- `keys` is the table of mNumEntries hash keys at the front of the buffer, and `values` the slots
-- of mMaxValueSize bytes behind it; so mNumEntries is the length of `keys`. `buffer` is the address
-- of the buffer, 0 for NULL. `current_entries` is the bit pattern of an int32_t.
pub record HashTable : Type 0 where
  pub buffer : ℕ
  pub keys : List ℕ
  pub values : List (List ℕ)
  pub current_entries : ℕ
  pub max_value_size : ℕ

abbrev pub num_entries : HashTable → ℕ
num_entries t = length t.keys

-- EMPTY_VALUE, REMOVED_VALUE, MAX_TRIES
abbrev pub empty_value : ℕ
empty_value = 0

abbrev pub removed_value : ℕ
removed_value = none64

abbrev pub max_tries : ℕ
max_tries = 10

pub allocation_size : ℕ → ℕ → ℕ
allocation_size num_entries max_value_size = mul64 (add64 max_value_size 8) num_entries

-- hash_value_table, and the address of the slot at an index
abbrev pub value_table : HashTable → ℕ
value_table t = t.buffer + 8 * num_entries t

abbrev pub value_pointer : HashTable → ℕ → ℕ
value_pointer t index = value_table t + index * t.max_value_size

unfoldable pub clear : HashTable → HashTable
clear t = record t { keys = replicate (num_entries t) empty_value; current_entries = 0 }

-- HashTable(), and Reset
pub reset : HashTable
reset = record { buffer = 0; keys = []; values = []; current_entries = 0; max_value_size = 0 }

-- `slots` is what the memory behind the keys holds; Init leaves it as it is.
pub init : ℕ → ℕ → ℕ → ℕ → List (List ℕ) → Run HashTable
init buffer buffer_size num_entries max_value_size slots = do
  assert (buffer % 8 == 0)
  assert (leb max_tries num_entries)
  assert (leb (allocation_size num_entries max_value_size) buffer_size)
  ok (
      clear (record {
        buffer = buffer;
        keys = replicate num_entries empty_value;
        values = slots;
        current_entries = 0;
        max_value_size = max_value_size;
      }))

-- (hash_key + i) % mNumEntries, where the sum wraps
abbrev pub try_index : ℕ → ℕ → ℕ → ℕ
try_index hash_key i n = add64 hash_key i % n

-- hash_table[try_index]; the index is in range, since it is taken modulo the length
abbrev pub key_at : List ℕ → ℕ → ℕ → ℕ
key_at keys hash_key i = get_or keys (try_index hash_key i (length keys)) empty_value

-- The test of Insert's loop: the slot holds the key, or is removed, or empty.
abbrev pub is_free : ℕ → ℕ → Bool
is_free hash_key found = found == hash_key || (found == removed_value || found == empty_value)

-- The loop of Insert, from try `i` on: the index that it writes.
unfoldable pub insert_slot : List ℕ → ℕ → ℕ → ℕ → Option ℕ
insert_slot keys hash_key zero i = none
insert_slot keys hash_key (suc tries) i =
    let rest = insert_slot keys hash_key tries (i + 1) in
    if is_free hash_key (key_at keys hash_key i)
    then some (try_index hash_key i (length keys))
    else rest

-- The loop of GetValue and of Remove, from try `i` on: the index that holds the key.
unfoldable pub find_slot : List ℕ → ℕ → ℕ → ℕ → Option ℕ
find_slot keys hash_key zero i = none
find_slot keys hash_key (suc tries) i =
    let found = key_at keys hash_key i in
    let rest = find_slot keys hash_key tries (i + 1) in
    if found == hash_key
    then some (try_index hash_key i (length keys))
    else if found == empty_value
    then none
    else rest

-- The writes of Insert at the index.
unfoldable pub insert_at : HashTable → ℕ → List ℕ → ℕ → HashTable
insert_at t hash_key value index = record t {
  keys = set t.keys index hash_key;
  values = set t.values index (memcpy (get_or t.values index []) value);
  current_entries = add32 t.current_entries 1;
}

-- Insert(hash_key, value, value_size): the address of the value, and the table
unfoldable pub insert : HashTable → ℕ → List ℕ → Run (ℕ × HashTable)
insert t hash_key value = do
  assert (leb (length value) t.max_value_size)
  require (ltb 0 (num_entries t)) division_by_zero
  elim (insert_slot t.keys hash_key max_tries 0) [
    | some index ↦ ok (value_pointer t index, insert_at t hash_key value index)
    | none ↦ fault assertion
  ]

-- GetValue(hash_key): the address of the value, or NULL
unfoldable pub get_value : HashTable → ℕ → Run (Option ℕ)
get_value t hash_key = do
  require (ltb 0 (num_entries t)) division_by_zero
  ok (Option.map (value_pointer t) (find_slot t.keys hash_key max_tries 0))

unfoldable pub remove_at : HashTable → ℕ → HashTable
remove_at t index = record t {
  keys = set t.keys index removed_value;
  current_entries = sub32 t.current_entries 1;
}

-- Remove(hash_key)
unfoldable pub remove : HashTable → ℕ → Run (Bool × HashTable)
remove t hash_key = do
  require (ltb 0 (num_entries t)) division_by_zero
  elim (find_slot t.keys hash_key max_tries 0) [
    | some index ↦ ok (true, remove_at t index)
    | none ↦ ok (false, t)
  ]

-- Remove(hash_table_value), by the address of the value
unfoldable pub remove_value : HashTable → ℕ → Run (Bool × HashTable)
remove_value t pointer = do
  let table = value_table t
  assert (leb table pointer && ltb pointer (table + t.max_value_size * num_entries t))
  assert ((pointer - table) % t.max_value_size == 0)
  let index = (pointer - table) / t.max_value_size
  let hash_key = get_or t.keys index empty_value
  ok (
      if hash_key == removed_value || hash_key == empty_value
      then (false, t)
      else (true, remove_at t index))

-- The overloads that take the bytes of a key; `hash64` is ycommon::utils::Hash::Hash64.
module _ (hash64 : List ℕ → ℕ) where
  -- the address of the value, the hash key passed out, and the table
  pub insert_key : HashTable → List ℕ → List ℕ → Run (ℕ × ℕ × HashTable)
  insert_key t key value = do
    let hash_key_value = hash64 key
    (pointer, t') ← insert t hash_key_value value
    ok (pointer, hash_key_value, t')

  pub get_value_key : HashTable → List ℕ → Run (Option ℕ)
  get_value_key t key = get_value t (hash64 key)

  pub remove_key : HashTable → List ℕ → Run (Bool × HashTable)
  remove_key t key = remove t (hash64 key)
