-- ===== src/Core/StringTable/Interning.antt =====
-- A string that was added is found under its hash key.
use yengine.Base.{
  ℕ, assert, leb, length, ◌≡◌, ◌≢◌, refl, List, ◌++◌, some, ok, ok-bind, ok-injective, ◌∙◌, sym, ap,
  subst, ◌>>=◌,
}
use yengine.Containers.HashTable.{HashTable}
use yengine.Containers.HashTable.Probe.{IsKey}
use yengine.Containers.HashTable.Insertion.{IsValid, view, Inserted, insert-Inserted}
use yengine.Containers.AtomicHashTable.{insert_key}
use yengine.Containers.AtomicHashTable.OneThread.{insert_key-run, same_get_value}
use yengine.Core.StringTable.{StringTable, add_string, existing, string_lookup}

-- What AddString of a string leaves.
pub record IsAdded (s : StringTable) (string : List ℕ) (hash : ℕ) (s' : StringTable) : Type 0 where
  pub valid : IsValid s'.hash_table
  pub found : (pointer : ℕ) × (string_lookup s' hash ≡ ok pointer)
  pub stored : (rest : List ℕ) × (view s'.hash_table hash ≡ some (string ++ rest))
  pub others :
      (j : ℕ)
      → IsKey j
      → j ≢ hash
      → (string_lookup s' j ≡ string_lookup s j) × (view s'.hash_table j ≡ view s.hash_table j)

Inserted-IsAdded :
    (s : StringTable) (string : List ℕ) (hash pointer : ℕ) (t : HashTable)
    → Inserted s.hash_table hash string (pointer, t)
    → IsAdded s string hash (record s { hash_table = t })
unfolding string_lookup existing
Inserted-IsAdded s string hash pointer t i = record {
  valid = i.valid;
  found = (pointer, rw (same_get_value t hash ∙ i.found) refl);
  stored = (i.stored.0, i.stored.1);
  others = λ j key ne.
      let (same, kept) = i.others j key ne in
      (
        ap (λ r. do value ← r; existing value)
            (same_get_value t j ∙ same ∙ sym (same_get_value s.hash_table j)),
        kept,
      );
}

-- A successful AddString to a string table whose hash table is valid, of a string whose hash key is
-- not reserved, returns the hash key, under which StringLookup then returns an address and the
-- string stands at the front of the slot; the hash table stays valid, and no other key leads to
-- another string than before.
pub add_string-IsAdded :
    (hash64 : List ℕ → ℕ) (s : StringTable) (string : List ℕ) {out : ℕ × StringTable}
    → IsValid s.hash_table
    → IsKey (hash64 string)
    → add_string hash64 s string ≡ ok out
    → (out.0 ≡ hash64 string) × IsAdded s string out.0 out.1
unfolding add_string
add_string-IsAdded hash64 s string {out} v key e =
    let (u, checked, e1) = ok-bind (assert (leb (length string) s.max_string_size)) _ e in
    let ((pointer, hash, t), run, last) =
      ok-bind (insert_key hash64 s.hash_table string string) _ e1 in
    let (inserted, named) = insert_key-run hash64 s.hash_table string string run in
    let same : (hash, record s { hash_table = t }) ≡ out = ok-injective _ _ last in
    let added =
      Inserted-IsAdded s string (hash64 string) pointer t
        (insert-Inserted s.hash_table (hash64 string) string v key inserted) in
    subst (λ (o : ℕ × StringTable). (o.0 ≡ hash64 string) × IsAdded s string o.0 o.1) same
      (named, subst (λ h. IsAdded s string h (record s { hash_table = t })) (sym named) added)
