-- ===== src/Core/StringTable/Tests.antt =====
-- A string table of ten slots of two characters, with a hash function that adds up the characters.
use yengine.Base.{
  ℕ, ◌+◌, ◌<◌, ◌≡◌, refl, ap, arith, List, [], ◌∷◌, ok, length, get_or, get_or-replicate_lt,
  replicate,
}
use yengine.Containers.HashTable.{HashTable, clear}
use yengine.Containers.HashTable.Insertion.{IsValid, clear-IsValid}
use yengine.Containers.AtomicHashTable.{insert_key, insert, insert_slot, take, cmp_set64}
use yengine.Core.StringTable.{StringTable, add_string}
use yengine.Core.StringTable.Interning.{IsAdded, add_string-IsAdded}

abbrev hash64 : List ℕ → ℕ
hash64 [] = 0
hash64 (char ∷ string) = char + hash64 string

abbrev slots : List (List ℕ)
slots = replicate 10 (0 ∷ 0 ∷ [])

abbrev empty_table : HashTable
empty_table = record {
  buffer = 64;
  keys = replicate 10 0;
  values = slots;
  current_entries = 0;
  max_value_size = 2;
}

slots_sized : (i : ℕ) → i < 10 → length (get_or slots i []) ≡ 2
slots_sized i h = ap length (get_or-replicate_lt 10 i (0 ∷ 0 ∷ []) [] h)

empty_table-IsValid : IsValid empty_table
unfolding clear
empty_table-IsValid = (clear-IsValid empty_table (omega arith) refl slots_sized).0

abbrev strings : StringTable
strings = record { hash_table = empty_table; max_string_size = 2 }

abbrev added : StringTable
added = record strings {
  hash_table = record empty_table {
    keys = 0 ∷ 0 ∷ 0 ∷ 0 ∷ 0 ∷ 195 ∷ 0 ∷ 0 ∷ 0 ∷ 0 ∷ [];
    values =
        (0 ∷ 0 ∷ [])
        ∷ (0 ∷ 0 ∷ [])
        ∷ (0 ∷ 0 ∷ [])
        ∷ (0 ∷ 0 ∷ [])
        ∷ (0 ∷ 0 ∷ [])
        ∷ (97 ∷ 98 ∷ [])
        ∷ replicate 4 (0 ∷ 0 ∷ []);
    current_entries = 1;
  };
}

add_string-run : add_string hash64 strings (97 ∷ 98 ∷ []) ≡ ok (195, added)
unfolding add_string insert_key insert insert_slot take cmp_set64
add_string-run = refl

add_string-IsAdded_example :
    (195 ≡ hash64 (97 ∷ 98 ∷ [])) × IsAdded strings (97 ∷ 98 ∷ []) 195 added
add_string-IsAdded_example =
    add_string-IsAdded hash64 strings (97 ∷ 98 ∷ []) empty_table-IsValid (omega arith)
      add_string-run
