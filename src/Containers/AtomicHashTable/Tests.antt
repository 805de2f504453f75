-- ===== src/Containers/AtomicHashTable/Tests.antt =====
-- AtomicHashTable on a table of twelve keys.
use yengine.Base.{◌≡◌, refl, true, [], ◌∷◌, replicate, none64, ok}
use yengine.Containers.HashTable
use yengine.Containers.HashTable.{HashTable}
use yengine.Containers.AtomicHashTable.{
  insert, remove, remove_value, get_value, take, insert_slot, remove_slot, cmp_set64,
}
use yengine.Containers.AtomicHashTable.OneThread.{same_calls}

-- The slot of the key 5 was removed, and the next one has the key 17.
abbrev table : HashTable
table = record {
  buffer = 4096;
  keys = 0 ∷ 0 ∷ 0 ∷ 0 ∷ 0 ∷ none64 ∷ 17 ∷ 0 ∷ 0 ∷ 0 ∷ 0 ∷ 0 ∷ [];
  values = replicate 12 (0 ∷ 0 ∷ []);
  current_entries = 1;
  max_value_size = 2;
}

insert_removed :
    insert table 5 (7 ∷ 8 ∷ [])
    ≡ ok (
      4202,
      record table {
        keys = 0 ∷ 0 ∷ 0 ∷ 0 ∷ 0 ∷ 5 ∷ 17 ∷ 0 ∷ 0 ∷ 0 ∷ 0 ∷ 0 ∷ [];
        values =
            (0 ∷ 0 ∷ [])
            ∷ (0 ∷ 0 ∷ [])
            ∷ (0 ∷ 0 ∷ [])
            ∷ (0 ∷ 0 ∷ [])
            ∷ (0 ∷ 0 ∷ [])
            ∷ (7 ∷ 8 ∷ [])
            ∷ replicate 6 (0 ∷ 0 ∷ []);
        current_entries = 2;
      },
    )
unfolding insert insert_slot take cmp_set64
insert_removed = refl

remove_second :
    remove table 17
    ≡ ok (
      true,
      record table {
        keys = 0 ∷ 0 ∷ 0 ∷ 0 ∷ 0 ∷ none64 ∷ none64 ∷ 0 ∷ 0 ∷ 0 ∷ 0 ∷ 0 ∷ [];
        current_entries = 0;
      },
    )
unfolding remove remove_slot cmp_set64
remove_second = refl

same_calls_example :
    (insert table 5 (7 ∷ 8 ∷ []) ≡ HashTable.insert table 5 (7 ∷ 8 ∷ []))
    × (remove table 5 ≡ HashTable.remove table 5)
    × (remove_value table 4204 ≡ HashTable.remove_value table 4204)
    × (get_value table 5 ≡ HashTable.get_value table 5)
same_calls_example = same_calls table 5 4204 (7 ∷ 8 ∷ [])
