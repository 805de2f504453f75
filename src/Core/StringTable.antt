-- ===== src/Core/StringTable.antt =====
-- StringTable of yengine/core/string_table.h and string_table.cpp, as one thread at a time calls it.
pub mod Interning
mod Tests
use yengine.Base.{
  ℕ, Bool, ◌&&◌, List, Option, none, some, leb, ltb, length, Run, ok, fault, assertion, ◌>>=◌, ◌>>◌,
  assert,
}
use yengine.Containers.AtomicHashTable
use yengine.Containers.AtomicHashTable.{AtomicHashTable, insert_key, get_value}

-- gHashTable and gMaxStringSize
pub record StringTable : Type 0 where
  pub hash_table : AtomicHashTable
  pub max_string_size : ℕ

-- `slots` is what the memory of the values holds.
pub initialize : ℕ → ℕ → ℕ → ℕ → List (List ℕ) → Run StringTable
initialize max_string_size table_size buffer buffer_size slots = do
  assert (ltb 0 max_string_size && ltb 0 table_size)
  hash_table ← AtomicHashTable.init buffer buffer_size table_size max_string_size slots
  ok (record { hash_table = hash_table; max_string_size = max_string_size })

pub terminate : StringTable
terminate = record { hash_table = AtomicHashTable.reset; max_string_size = 0 }

-- AddString: the hash key and the table; `hash64` is ycommon::utils::Hash::Hash64.
pub add_string : (List ℕ → ℕ) → StringTable → List ℕ → Run (ℕ × StringTable)
add_string hash64 s string = do
  assert (leb (length string) s.max_string_size)
  (pointer, hash_key, hash_table) ← insert_key hash64 s.hash_table string string
  ok (hash_key, record s { hash_table = hash_table })

-- The address that StringLookup returns, where there is a string.
pub existing : Option ℕ → Run ℕ
existing none = fault assertion
existing (some value) = ok value

pub string_lookup : StringTable → ℕ → Run ℕ
string_lookup s string_hash = do value ← get_value s.hash_table string_hash; existing value
