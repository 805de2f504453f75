-- ===== src/Containers/HashTable/Lookup.antt =====
-- What a write of HashTable to one slot does to the search for every key.
use yengine.Base.{
  ℕ, zero, suc, ◌+◌, ◌≤◌, ◌<◌, ◌≡◌, refl, ◌≢◌, ◌⊎◌, inl, inr, List, some, arith, length, set,
  length-set, Option-cases, dec_lt, ℕ_discrete,
}
use yengine.Containers.HashTable.{empty_value, max_tries, try_index, key_at, insert_slot, find_slot}
use yengine.Containers.HashTable.Probe.{
  IsKey, try_index-lt, key_at-set, Takes, insert_slot-Takes, Finds, find_slot-Finds,
  Finds-find_slot, find_slot-none,
}

-- The first place where a function takes a value, if it takes it below `n`.
first_below :
    (f : ℕ → ℕ) (v n : ℕ)
    → ((s : ℕ) → s < n → f s ≢ v) ⊎ ((r : ℕ) × (r < n) × (f r ≡ v) × ((s : ℕ) → s < r → f s ≢ v))
first_below f v zero = inl (λ s h. absurd (omega arith))
first_below f v (suc n) = elim (first_below f v n) [
  | inr (r, h, e, first) ↦ inr (r, omega arith, e, first)
  | inl before ↦ elim (ℕ_discrete (f n) v) [
    | yes e ↦ inr (n, omega arith, e, before)
    | no other ↦ inl (λ s h. elim (dec_lt s n) [
      | yes below ↦ before s below
      | no last ↦ let e : s ≡ n = omega arith in rw e other
    ])
  ]
]

-- Where a key stands at one of its tries, no earlier try meets an empty slot. A try that comes back
-- to an index of an earlier one, which happens where the sum of key and try wraps, does not count.
abbrev pub IsChained : List ℕ → Type 0
IsChained keys =
    (k t : ℕ)
    → IsKey k
    → t < max_tries
    → key_at keys k t ≡ k
    → ((s : ℕ) → s < t → try_index k s (length keys) ≢ try_index k t (length keys))
    → (s : ℕ) → s < t
    → key_at keys k s ≢ empty_value

-- The loop finds something, if a try holds the key and no try before it meets an empty slot.
find_slot-some :
    (keys : List ℕ) (k tries from t : ℕ)
    → from ≤ t
    → t < from + tries
    → key_at keys k t ≡ k
    → ((s : ℕ) → from ≤ s → s < t → key_at keys k s ≢ empty_value)
    → (p : ℕ) × (find_slot keys k tries from ≡ some p)
unfolding find_slot
find_slot-some keys k zero from t a b e full = absurd (omega arith)
find_slot-some keys k (suc tries) from t a b e full = elim (ℕ_discrete (key_at keys k from) k) [
  | yes here ↦ (try_index k from (length keys), ground arith)
  | no other ↦
      let from-lt-t : from < t = elim (dec_lt from t) [
        | yes lt ↦ lt
        | no ge ↦ absurd (let same : from ≡ t = omega arith in other (rw same e))
      ] in
      let (p, h) =
        find_slot-some keys k tries (from + 1) t (omega arith) (omega arith) e
          (λ s c d. full s (omega arith) d) in
      (p, ground (arith, full from (omega arith) from-lt-t))
]

-- In a chained table a key that stands at one of its tries is found.
pub IsChained-find :
    (keys : List ℕ) (k t : ℕ)
    → IsChained keys
    → IsKey k
    → t < max_tries
    → key_at keys k t ≡ k
    → (p : ℕ) × (find_slot keys k max_tries 0 ≡ some p)
IsChained-find keys k t chained key h e =
    elim (first_below (λ s. try_index k s (length keys)) (try_index k t (length keys)) (suc t)) [
      | inl never ↦ absurd (never t (omega arith) refl)
      | inr (r, below, same, first) ↦
          find_slot-some keys k max_tries 0 r (omega arith) (omega arith) (ground (arith, same, e))
            (λ s _ before.
              chained k r key (omega arith) (ground (arith, same, e))
                (λ s' lt. rw same (first s' lt)) s before)
    ]

module _ (keys : List ℕ) (k p : ℕ) (wide : 0 < length keys) where
  -- After Insert the key is found where Insert put it.
  pub find-insert_self :
      insert_slot keys k max_tries 0 ≡ some p → find_slot (set keys p k) k max_tries 0 ≡ some p
  find-insert_self h =
      let w = insert_slot-Takes keys k max_tries 0 h in
      let lt : p < length keys = rw w.index (try_index-lt keys k w.at wide) in
      Finds-find_slot (set keys p k) k max_tries 0 (record {
        at = w.at;
        after_from = w.after_from;
        within = w.within;
        index = rw length-set w.index;
        holds = ground (arith, key_at-set keys p k k w.at lt, w.index);
        first = λ s a b. ground (arith, key_at-set keys p k k s lt, w.first s a b, w.free, w.index);
      })

  -- The search for another key goes as before.
  pub find-insert_other :
      (j : ℕ)
      → IsChained keys
      → IsKey k
      → IsKey j
      → j ≢ k
      → insert_slot keys k max_tries 0 ≡ some p
      → find_slot (set keys p k) j max_tries 0 ≡ find_slot keys j max_tries 0
  find-insert_other j chained key-k key-j ne h =
      let w : Takes keys k 0 max_tries p = insert_slot-Takes keys k max_tries 0 h in
      let lt : p < length keys = rw w.index (try_index-lt keys k w.at wide) in
      elim (Option-cases (find_slot keys j max_tries 0)) [
        | inr (q, e) ↦
            let f : Finds keys j 0 max_tries q = find_slot-Finds keys j max_tries 0 e in
            rw e (
              Finds-find_slot (set keys p k) j max_tries 0 (record {
                at = f.at;
                after_from = f.after_from;
                within = f.within;
                index = rw length-set f.index;
                holds = ground (
                  arith,
                  key_at-set keys p j k f.at lt,
                  f.holds,
                  w.free,
                  w.index,
                  key-j.0,
                  key-j.1,
                );
                first = λ s a b. (
                  λ c. ground (arith, key_at-set keys p j k s lt, (f.first s a b).0, c),
                  λ c. ground (arith, key_at-set keys p j k s lt, (f.first s a b).1, key-k.0, c),
                );
              }))
        | inl e ↦ rw e (
            find_slot-none (set keys p k) j max_tries 0 (λ s _ b c.
              let old : key_at keys j s ≡ j = ground (arith, key_at-set keys p j k s lt, c) in
              let (q, some-q) = IsChained-find keys j s chained key-j b old in cc (some-q, e)))
      ]
