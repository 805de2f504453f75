-- ===== src/Containers/HashTable/Tests.antt =====
-- Runs of HashTable over ten slots of two bytes, and its theorems at them.
use yengine.Base.{
  ℕ, ◌<◌, ◌≡◌, refl, ap, get_or, ◌≢◌, true, List, [], ◌∷◌, none, some, arith, Returns-value, length,
  replicate, get_or-replicate_lt, ok, fault, division_by_zero, ◌>>=◌, ◌+◌, Returns, add32,
}
use yengine.Containers.HashTable.{
  HashTable, reset, allocation_size, init, clear, insert, insert_slot, insert_at, find_slot,
  get_value, remove, remove_at, remove_value,
}
use yengine.Containers.HashTable.Copies.{remove-insert_stale}
use yengine.Containers.HashTable.Counting.{occupied, current_size-insert}
use yengine.Containers.HashTable.Deletion.{Removed, remove-Removed}
use yengine.Containers.HashTable.Insertion.{IsValid, view, init-IsValid, Inserted, insert-Inserted}
use yengine.Containers.HashTable.Probe.{IsKey}

program : Unit {0}
unfolding init clear allocation_size insert insert_slot insert_at find_slot get_value remove
    remove_at remove_value
program = tt

abbrev slots : List (List ℕ)
slots = replicate 10 (0 ∷ 0 ∷ [])

abbrev fresh : HashTable
fresh = record {
  buffer = 64;
  keys = replicate 10 0;
  values = slots;
  current_entries = 0;
  max_value_size = 2;
}

slots_sized : (i : ℕ) → i < 10 → length (get_or slots i []) ≡ 2
slots_sized i h = ap length (get_or-replicate_lt 10 i (0 ∷ 0 ∷ []) [] h)

init-IsValid_example : IsValid fresh × ((k : ℕ) → IsKey k → view fresh k ≡ none)
unfolding program
init-IsValid_example = init-IsValid 64 100 10 2 slots refl slots_sized refl

-- Keys 7 and 17 share their first index; 17 is stored at the next one.
abbrev seven : HashTable
seven = record fresh {
  keys = 0 ∷ 0 ∷ 0 ∷ 0 ∷ 0 ∷ 0 ∷ 0 ∷ 7 ∷ 0 ∷ 0 ∷ [];
  values =
      (0 ∷ 0 ∷ [])
      ∷ (0 ∷ 0 ∷ [])
      ∷ (0 ∷ 0 ∷ [])
      ∷ (0 ∷ 0 ∷ [])
      ∷ (0 ∷ 0 ∷ [])
      ∷ (0 ∷ 0 ∷ [])
      ∷ (0 ∷ 0 ∷ [])
      ∷ (1 ∷ 2 ∷ [])
      ∷ (0 ∷ 0 ∷ [])
      ∷ (0 ∷ 0 ∷ [])
      ∷ [];
  current_entries = 1;
}

insert-Inserted_example : Inserted fresh 7 (1 ∷ 2 ∷ []) (158, seven)
unfolding program
insert-Inserted_example =
    insert-Inserted fresh 7 (1 ∷ 2 ∷ []) init-IsValid_example.0 (omega arith) refl

seven-IsValid : IsValid seven
seven-IsValid = insert-Inserted_example.valid

remove-Removed_example : Returns (remove seven 7) (Removed seven 7)
remove-Removed_example = remove-Removed seven 7 seven-IsValid (omega arith)

-- Key 17 stored while 7 was there, and 7 then removed.
abbrev holed : HashTable
holed = record fresh {
  keys = 0 ∷ 0 ∷ 0 ∷ 0 ∷ 0 ∷ 0 ∷ 0 ∷ 0xffff_ffff_ffff_ffff ∷ 17 ∷ 0 ∷ [];
  values =
      (0 ∷ 0 ∷ [])
      ∷ (0 ∷ 0 ∷ [])
      ∷ (0 ∷ 0 ∷ [])
      ∷ (0 ∷ 0 ∷ [])
      ∷ (0 ∷ 0 ∷ [])
      ∷ (0 ∷ 0 ∷ [])
      ∷ (0 ∷ 0 ∷ [])
      ∷ (1 ∷ 2 ∷ [])
      ∷ (3 ∷ 4 ∷ [])
      ∷ (0 ∷ 0 ∷ [])
      ∷ [];
  current_entries = 1;
}

holed_run : (insert seven 17 (3 ∷ 4 ∷ []) >>= λ r. remove r.1 7) ≡ ok (true, holed)
unfolding program
holed_run = refl

both : HashTable
both = record holed { keys = 0 ∷ 0 ∷ 0 ∷ 0 ∷ 0 ∷ 0 ∷ 0 ∷ 7 ∷ 17 ∷ 0 ∷ []; current_entries = 2 }

both-IsValid : IsValid both
unfolding program both
both-IsValid =
    (insert-Inserted seven 17 (3 ∷ 4 ∷ []) {out = (160, both)} seven-IsValid (omega arith)
      refl).valid

holed-IsValid : IsValid holed
unfolding program both
holed-IsValid =
    (Returns-value (Removed both 7) (remove-Removed both 7 both-IsValid (omega arith)) refl).valid

-- Insert of 17 takes the removed slot, and its old slot stays.
remove-insert_stale_example :
    Returns
      (remove (insert_at holed 17 (5 ∷ 6 ∷ []) 7) 17)
      λ out. (out.0 ≡ true) × (get_value out.1 17 ≡ ok (some 160))
unfolding program
remove-insert_stale_example =
    remove-insert_stale holed 17 (5 ∷ 6 ∷ []) {pointer = 158} holed-IsValid (omega arith) refl refl
      (omega arith)

current_size-insert_example :
    ((insert_at seven 7 (9 ∷ []) 7).current_entries ≡ add32 1 1)
    × (get_value seven 7 ≡ ok (some 158)
        → occupied (insert_at seven 7 (9 ∷ []) 7).keys ≡ occupied seven.keys)
    × (get_value seven 7 ≢ ok (some 158)
        → occupied (insert_at seven 7 (9 ∷ []) 7).keys ≡ occupied seven.keys + 1)
unfolding program
current_size-insert_example =
    current_size-insert seven 7 (9 ∷ []) seven-IsValid (omega arith) (omega arith) refl

reset_faults : get_value reset 7 ≡ fault division_by_zero
unfolding program reset
reset_faults = refl
