-- ===== src/Containers/HashTable/Insertion.antt =====
-- Init and Insert of HashTable against a map from hash keys to values.
use yengine.Base.{
  ℕ, ◌+◌, ◌≤◌, ◌<◌, ◌≡◌, refl, sym, ◌∙◌, subst, ◌≢◌, inl, inr, List, [], ◌++◌, Option, none, some,
  arith, length, get_or, set, memcpy, replicate, length-set, length-replicate, length-append,
  length-drop, drop, ap, get_or-replicate, get_or-set, Option-cases, ok,
}
use mathlib.Core.Option
use yengine.Containers.HashTable.{
  HashTable, num_entries, empty_value, max_tries, key_at, insert_slot, find_slot, insert_at,
  value_pointer, init, clear, insert, get_value,
}
use yengine.Containers.HashTable.Lookup.{IsChained, find-insert_self, find-insert_other}
use yengine.Containers.HashTable.Probe.{
  IsKey, Takes, insert_slot-Takes, Finds, find_slot-Finds, find_slot-none,
}
use yengine.Containers.HashTable.Removal.{insert_in_range, set-IsChained_insert}

pub record IsValid (t : HashTable) : Type 0 where
  pub wide : max_tries ≤ num_entries t
  pub slots : length t.values ≡ num_entries t
  pub sizes : (i : ℕ) → i < num_entries t → length (get_or t.values i []) ≡ t.max_value_size
  pub chained : IsChained t.keys

-- The bytes that the table holds under a key.
abbrev pub view : HashTable → ℕ → Option (List ℕ)
view t k = Option.map (λ i. get_or t.values i []) (find_slot t.keys k max_tries 0)

key_at-replicate : (n k i : ℕ) → key_at (replicate n empty_value) k i ≡ empty_value
key_at-replicate n k i = get_or-replicate n _ empty_value

find-replicate : (n k : ℕ) → IsKey k → find_slot (replicate n empty_value) k max_tries 0 ≡ none
find-replicate n k key =
    find_slot-none (replicate n empty_value) k max_tries 0
      (λ s _ _ e. key.0 (sym e ∙ key_at-replicate n k s))

pub clear-IsValid :
    (t : HashTable)
    → max_tries ≤ num_entries t
    → length t.values ≡ num_entries t
    → ((i : ℕ) → i < num_entries t → length (get_or t.values i []) ≡ t.max_value_size)
    → IsValid (clear t) × ((k : ℕ) → IsKey k → view (clear t) k ≡ none)
unfolding clear
clear-IsValid t wide slots sizes = (
  record {
    wide = rw length-replicate wide;
    slots = rw length-replicate slots;
    sizes = λ i lt. sizes i (rw length-replicate at lt);
    chained = λ k i key b e _ s _ _. key.0 (sym e ∙ key_at-replicate (num_entries t) k i);
  },
  λ k key. rw (find-replicate (num_entries t) k key),
)

-- A successful Init over as many slots as it is told, each of the size of a value, leaves a valid
-- table in which no key that is not reserved is found.
pub init-IsValid :
    (buffer buffer_size n size : ℕ) (slots : List (List ℕ)) {t : HashTable}
    → length slots ≡ n
    → ((i : ℕ) → i < n → length (get_or slots i []) ≡ size)
    → init buffer buffer_size n size slots ≡ ok t
    → IsValid t × ((k : ℕ) → IsKey k → view t k ≡ none)
unfolding init
init-IsValid buffer buffer_size n size slots {t} h sizes e =
    let fresh : HashTable = record {
      buffer = buffer;
      keys = replicate n empty_value;
      values = slots;
      current_entries = 0;
      max_value_size = size;
    } in
    let (wide, same) : (max_tries ≤ n) × (clear fresh ≡ t) = ground arith in
    subst (λ t. IsValid t × ((k : ℕ) → IsKey k → view t k ≡ none)) same
      (clear-IsValid fresh (rw length-replicate wide) (rw length-replicate h)
        (λ i lt. sizes i (rw length-replicate at lt)))

-- What a successful Insert of `value` under `k` leaves.
pub record Inserted (t : HashTable) (k : ℕ) (value : List ℕ) (out : ℕ × HashTable) : Type 0 where
  pub valid : IsValid out.1
  pub found : get_value out.1 k ≡ ok (some out.0)
  pub stored :
      (rest : List ℕ) × (view out.1 k ≡ some (value ++ rest))
      × (length value + length rest ≡ t.max_value_size)
  pub others :
      (j : ℕ) → IsKey j → j ≢ k → (get_value out.1 j ≡ get_value t j) × (view out.1 j ≡ view t j)

-- The index that Insert takes is not one where another key is found.
insert_ne_find :
    (keys : List ℕ) (k j p q : ℕ)
    → IsKey j
    → j ≢ k
    → insert_slot keys k max_tries 0 ≡ some p
    → find_slot keys j max_tries 0 ≡ some q
    → p ≢ q
insert_ne_find keys k j p q key-j ne h e same =
    let w : Takes keys k 0 max_tries p = insert_slot-Takes keys k max_tries 0 h in
    let f : Finds keys j 0 max_tries q = find_slot-Finds keys j max_tries 0 e in
    ground (arith, w.free, w.index, f.holds, f.index, key-j.0, key-j.1)

-- The value under another key stays, where its index is not written.
view_other :
    (values : List (List ℕ)) (p q : ℕ) (slot : List ℕ)
    → p < length values
    → p ≢ q
    → get_or (set values p slot) q [] ≡ get_or values q []
view_other values p q slot lt ne = ground (arith, get_or-set values p q slot [] lt)

module _ (t : HashTable) (k : ℕ) (value : List ℕ) (p : ℕ) (v : IsValid t) (key : IsKey k)
    (small : length value ≤ t.max_value_size) (h : insert_slot t.keys k max_tries 0 ≡ some p) where
  wide : 0 < length t.keys
  wide = omega (arith, v.wide)

  range : p < length t.keys
  range = insert_in_range t.keys k p wide h

  insert_at-IsValid : IsValid (insert_at t k value p)
  unfolding insert_at
  insert_at-IsValid = record {
    wide = rw length-set v.wide;
    slots = simp length-set v.slots;
    sizes = λ i lt. ground (
      arith,
      get_or-set t.values p i (memcpy (get_or t.values p []) value) [],
      length-set t.keys p k,
      length-append value (drop (length value) (get_or t.values p [])),
      length-drop (length value) (get_or t.values p []),
      v.sizes i,
      v.sizes p,
      v.slots,
      range,
    );
    chained = set-IsChained_insert t.keys k p wide v.chained key h;
  }

  insert_at-others :
      (j : ℕ)
      → IsKey j
      → j ≢ k
      → (get_value (insert_at t k value p) j ≡ get_value t j)
        × (view (insert_at t k value p) j ≡ view t j)
  unfolding insert_at get_value
  insert_at-others j key-j ne =
      let same = find-insert_other t.keys k p wide j v.chained key key-j ne h in
      elim (Option-cases (find_slot t.keys j max_tries 0)) [
        | inl e ↦ simp (same, e, length-set) (refl, refl)
        | inr (q, e) ↦
            simp (same, e, length-set)
              (
                refl,
                ap some (
                    view_other t.values p q _ (rw v.slots range)
                      (insert_ne_find t.keys k j p q key-j ne h e)),
              )
      ]

  insert_at-Inserted : Inserted t k value (value_pointer t p, insert_at t k value p)
  unfolding insert_at get_value
  insert_at-Inserted = record {
    valid = insert_at-IsValid;
    found = rw (find-insert_self t.keys k p wide h, length-set) (ground (arith, wide));
    stored = (
      drop (length value) (get_or t.values p []),
      rw (find-insert_self t.keys k p wide h) (
          ground (
            arith,
            get_or-set t.values p p (memcpy (get_or t.values p []) value) [],
            v.slots,
            range,
          )),
      omega (arith, length-drop (length value) (get_or t.values p []), v.sizes p range),
    );
    others = insert_at-others;
  }

-- A successful Insert into a valid table under a key that is not reserved keeps the table valid,
-- returns the address at which GetValue then finds the key, stores the value at the front of its
-- slot, and changes what is found and stored under no other key.
pub insert-Inserted :
    (t : HashTable) (k : ℕ) (value : List ℕ) {out : ℕ × HashTable}
    → IsValid t
    → IsKey k
    → insert t k value ≡ ok out
    → Inserted t k value out
unfolding insert
insert-Inserted t k value {out} v key e = elim (Option-cases (insert_slot t.keys k max_tries 0)) [
  | inl full ↦ ground (arith, full)
  | inr (p, h) ↦
      let (small, same) : (length value ≤ t.max_value_size)
          × ((value_pointer t p, insert_at t k value p) ≡ out) =
        ground (arith, h) in
      subst (Inserted t k value) same (insert_at-Inserted t k value p v key small h)
]
