-- ===== src/Containers/HashTable/Deletion.antt =====
-- Remove of HashTable against the same map, and what follows an Insert.
use yengine.Base.{
  ℕ, ◌^◌, ◌%◌, get_or, get_or-set, add32, ◌<◌, ◌≡◌, refl, ap, sym, ◌∙◌, subst, ◌≢◌, inl, inr, Bool,
  true, false, List, Option, none, some, arith, length, set, length-set, Option-cases, ℕ_discrete,
  ok, Returns,
}
use mathlib.Core.Option
use mathlib.Core.Option.{some-injective, none-ne-some}
use yengine.Containers.HashTable.{
  HashTable, empty_value, removed_value, max_tries, try_index, key_at, insert_slot, find_slot,
  insert_at, remove_at, value_pointer, insert, remove, get_value,
}
use yengine.Containers.HashTable.Insertion.{IsValid, view}
use yengine.Containers.HashTable.Lookup.{IsChained, IsChained-find, find-insert_self}
use yengine.Containers.HashTable.Probe.{IsKey, key_at-set, Finds, find_slot-Finds, find_slot-none}
use yengine.Containers.HashTable.Removal.{
  IsSole, index_in_range, insert_in_range, find-remove_self, find-remove_other,
  set-IsChained_remove,
}

-- What Remove leaves, and the result that it returns.
pub record Removed (t : HashTable) (k : ℕ) (out : Bool × HashTable) : Type 0 where
  pub valid : IsValid out.1
  pub absent : view t k ≡ none → (out.0 ≡ false) × (out.1 ≡ t)
  pub present : view t k ≢ none → out.0 ≡ true
  pub cleared :
      (p : ℕ)
      → find_slot t.keys k max_tries 0 ≡ some p
      → (get_or out.1.keys p empty_value ≡ removed_value)
        × (find_slot out.1.keys k max_tries 0 ≢ some p)
        × (add32 out.1.current_entries 1 ≡ t.current_entries % 2 ^ 32)
  pub gone :
      (p : ℕ)
      → find_slot t.keys k max_tries 0 ≡ some p
      → IsSole t.keys k p
      → get_value out.1 k ≡ ok none
  pub others :
      (j : ℕ) → IsKey j → j ≢ k → (get_value out.1 j ≡ get_value t j) × (view out.1 j ≡ view t j)

-- Where one index serves two keys, they are one.
find_inj :
    (keys : List ℕ) (k j p : ℕ)
    → find_slot keys k max_tries 0 ≡ some p
    → find_slot keys j max_tries 0 ≡ some p
    → j ≡ k
find_inj keys k j p h e =
    let g : Finds keys k 0 max_tries p = find_slot-Finds keys k max_tries 0 h in
    let f : Finds keys j 0 max_tries p = find_slot-Finds keys j max_tries 0 e in
    ground (arith, g.holds, g.index, f.holds, f.index)

module _ (t : HashTable) (k p : ℕ) (v : IsValid t) (key : IsKey k)
    (h : find_slot t.keys k max_tries 0 ≡ some p) where
  wide : 0 < length t.keys
  wide = omega (arith, v.wide)

  range : p < length t.keys
  range = index_in_range t.keys k p wide h

  remove_at-IsValid : IsValid (remove_at t p)
  unfolding remove_at
  remove_at-IsValid = record {
    wide = rw length-set v.wide;
    slots = rw length-set v.slots;
    sizes = λ i lt. v.sizes i (rw length-set at lt);
    chained = set-IsChained_remove t.keys k p wide v.chained h;
  }

  -- The search for another key goes on as before, found or not.
  find-remove_at :
      (j : ℕ)
      → IsKey j
      → j ≢ k
      → find_slot (set t.keys p removed_value) j max_tries 0 ≡ find_slot t.keys j max_tries 0
  find-remove_at j key-j ne = elim (Option-cases (find_slot t.keys j max_tries 0)) [
    | inr (q, e) ↦ find-remove_other t.keys k p wide j key key-j ne h q e ∙ sym e
    | inl e ↦
        find_slot-none (set t.keys p removed_value) j max_tries 0 (λ s _ b c.
          let old : key_at t.keys j s ≡ j =
            ground (arith, key_at-set t.keys p j removed_value s range, c, key-j.1) in
          let (q, some-q) = IsChained-find t.keys j s v.chained key-j b old in cc (some-q, e))
        ∙ sym e
  ]

  remove_at-others :
      (j : ℕ)
      → IsKey j
      → j ≢ k
      → (get_value (remove_at t p) j ≡ get_value t j) × (view (remove_at t p) j ≡ view t j)
  unfolding remove_at get_value
  remove_at-others j key-j ne = elim (Option-cases (find_slot t.keys j max_tries 0)) [
    | inl e ↦ simp (find-remove_at j key-j ne, e, length-set) (refl, refl)
    | inr (q, e) ↦ simp (find-remove_at j key-j ne, e, length-set) (refl, refl)
  ]

  -- The slot of the key holds it no more.
  remove_at-cleared :
      (q : ℕ)
      → find_slot t.keys k max_tries 0 ≡ some q
      → (get_or (remove_at t p).keys q empty_value ≡ removed_value)
        × (find_slot (remove_at t p).keys k max_tries 0 ≢ some q)
        × (add32 (remove_at t p).current_entries 1 ≡ t.current_entries % 2 ^ 32)
  unfolding remove_at
  remove_at-cleared q found =
      let same : p ≡ q = some-injective p q (sym h ∙ found) in
      let erased : get_or (set t.keys p removed_value) q empty_value ≡ removed_value =
        ground (arith, get_or-set t.keys p q removed_value empty_value range, same) in
      (
        erased,
        λ e.
            let f : Finds (set t.keys p removed_value) k 0 max_tries q =
              find_slot-Finds (set t.keys p removed_value) k max_tries 0 e in
            key.1 (
              sym f.holds
              ∙ (ap (λ i. get_or (set t.keys p removed_value) i empty_value) (sym f.index)
                  ∙ erased)),
        omega arith,
      )

  remove_at-gone :
      (q : ℕ)
      → find_slot t.keys k max_tries 0 ≡ some q
      → IsSole t.keys k q
      → get_value (remove_at t p) k ≡ ok none
  unfolding remove_at get_value
  remove_at-gone q found sole =
      let same : q ≡ p = some-injective q p (sym found ∙ h) in
      let none_left = find-remove_self t.keys k p wide key (subst (IsSole t.keys k) same sole) h in
      ground (arith, wide, none_left, length-set t.keys p removed_value)

-- Remove of a key that is not reserved from a valid table returns, true exactly if the table holds
-- the key; then the slot where it was found has the removed value, so that the key is not found
-- there again, not at all if it stood in no other slot, and one entry less is counted modulo 2^32;
-- it keeps the table valid, leaves it as it is where the key is absent, and changes what is found
-- and stored under no other key.
pub remove-Removed :
    (t : HashTable) (k : ℕ) → IsValid t → IsKey k → Returns (remove t k) (Removed t k)
unfolding remove
remove-Removed t k v key = elim (Option-cases (find_slot t.keys k max_tries 0)) [
  | inl e ↦ (
    (false, t),
    ground (arith, e, v.wide),
    record {
      valid = v;
      absent = λ _. (refl, refl);
      present = λ n. absurd (n (rw e));
      cleared = λ q found. absurd (none-ne-some q (sym e ∙ found));
      gone = λ q found _. absurd (none-ne-some q (sym e ∙ found));
      others = λ j _ _. (refl, refl);
    },
  )
  | inr (p, e) ↦ (
    (true, remove_at t p),
    ground (arith, e, v.wide),
    record {
      valid = remove_at-IsValid t k p v key e;
      absent = λ n. absurd (let no : view t k ≢ none = rw e (λ q. cc) in no n);
      present = λ _. refl;
      cleared = λ q found. remove_at-cleared t k p v key e q found;
      gone = λ q found sole. remove_at-gone t k p v key e q found sole;
      others = remove_at-others t k p v key e;
    },
  )
]

map-none {ℓ} : {A B : Type ℓ} (f : A → B) (o : Option A) → Option.map f o ≡ none → o ≡ none
map-none f none h = refl
map-none f (some a) h = cc

-- In a valid table a key that is not found stands at none of its tries.
find-none_absent :
    (keys : List ℕ) (k s : ℕ)
    → IsChained keys
    → IsKey k
    → find_slot keys k max_tries 0 ≡ none
    → s < max_tries
    → key_at keys k s ≢ k
find-none_absent keys k s chained key e lt c =
    let (q, some-q) = IsChained-find keys k s chained key lt c in cc (some-q, e)

-- After Insert at `p` of a key that was not found, the key stands there alone.
IsSole-insert :
    (keys : List ℕ) (k p : ℕ)
    → p < length keys
    → IsChained keys
    → IsKey k
    → find_slot keys k max_tries 0 ≡ none
    → IsSole (set keys p k) k p
IsSole-insert keys k p in_range chained key e s lt c =
    elim (ℕ_discrete p (try_index k s (length keys))) [
      | yes same ↦ rw length-set (sym same)
      | no other ↦ absurd (
          find-none_absent keys k s chained key e lt
            (ground (arith, key_at-set keys p k k s in_range, c, other)))
    ]

-- After a successful Insert into a valid table of a key that is not reserved and that the table did
-- not hold, Remove of it returns true, and GetValue then returns NULL.
pub remove-insert_fresh :
    (t : HashTable) (k : ℕ) (value : List ℕ) {pointer : ℕ} {t' : HashTable}
    → IsValid t
    → IsKey k
    → get_value t k ≡ ok none
    → insert t k value ≡ ok (pointer, t')
    → Returns (remove t' k) λ out. (out.0 ≡ true) × (get_value out.1 k ≡ ok none)
unfolding insert insert_at remove remove_at get_value
remove-insert_fresh t k value {t' = t'} v key fresh e =
    elim (Option-cases (insert_slot t.keys k max_tries 0)) [
      | inl full ↦ ground (arith, full)
      | inr (p, h) ↦
          let wide : 0 < length t.keys = omega (arith, v.wide) in
          let range = insert_in_range t.keys k p wide h in
          let wide' : 0 < length (set t.keys p k) = rw length-set wide in
          let same : insert_at t k value p ≡ t' = ground (arith, e, h) in
          let absent : find_slot t.keys k max_tries 0 ≡ none =
            map-none (value_pointer t) (find_slot t.keys k max_tries 0)
              (ground (arith, fresh, wide)) in
          let gone : find_slot (set (set t.keys p k) p removed_value) k max_tries 0 ≡ none =
            find-remove_self (set t.keys p k) k p wide' key
              (IsSole-insert t.keys k p range v.chained key absent)
              (find-insert_self t.keys k p wide h) in
          subst (λ t'. Returns (remove t' k) λ out. (out.0 ≡ true) × (get_value out.1 k ≡ ok none))
            same
            (
              (true, remove_at (insert_at t k value p) p),
              ground (arith, wide', find-insert_self t.keys k p wide h),
              (refl, ground (arith, wide', gone, length-set (set t.keys p k) p removed_value)),
            )
    ]
