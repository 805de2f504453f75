-- ===== src/Containers/HashTable/Probe.antt =====
-- The probe loops of HashTable: what each finds, and how a write to one key changes them.
use yengine.Base.{
  ℕ, zero, suc, ◌+◌, ◌≤◌, ◌<◌, ◌≡◌, refl, ◌≢◌, inl, inr, true, false, List, none, some, arith, ◌==◌,
  if◌then◌else◌, length, set, length-set, get_or-set, Bool-cases, dec_lt, ℕ_discrete,
}
use yengine.Containers.HashTable.{
  empty_value, removed_value, try_index, key_at, is_free, insert_slot, find_slot,
}

-- A hash key that the two reserved values do not stand for.
abbrev pub IsKey : ℕ → Type 0
IsKey k = (k ≢ empty_value) × (k ≢ removed_value)

pub try_index-lt :
    (keys : List ℕ) (k i : ℕ) → 0 < length keys → try_index k i (length keys) < length keys
try_index-lt keys k i h = omega arith

pub key_at-set :
    (keys : List ℕ) (p k v i : ℕ)
    → p < length keys
    → key_at (set keys p v) k i ≡ (if p == try_index k i (length keys) then v else key_at keys k i)
key_at-set keys p k v i h = rw length-set (get_or-set keys p _ v empty_value h)

-- Insert takes try `at`: the first, from try `from` on, whose slot it may take.
pub record Takes (keys : List ℕ) (k from tries p : ℕ) : Type 0 where
  pub at : ℕ
  pub after_from : from ≤ at
  pub within : at < from + tries
  pub index : p ≡ try_index k at (length keys)
  pub free : is_free k (key_at keys k at) ≡ true
  pub first : (s : ℕ) → from ≤ s → s < at → is_free k (key_at keys k s) ≡ false

pub insert_slot-Takes :
    (keys : List ℕ) (k tries from : ℕ) {p : ℕ}
    → insert_slot keys k tries from ≡ some p
    → Takes keys k from tries p
unfolding insert_slot
insert_slot-Takes keys k zero from h = absurd (cc)
insert_slot-Takes keys k (suc tries) from {p} h =
    elim (Bool-cases (is_free k (key_at keys k from))) [
      | inl free ↦ record {
        at = from;
        after_from = omega arith;
        within = omega arith;
        index = ground arith;
        free = free;
        first = λ s a b. absurd (omega arith);
      }
      | inr taken ↦
          let rest : Takes keys k (from + 1) tries p =
            insert_slot-Takes keys k tries (from + 1) (ground arith) in
          record {
            at = rest.at;
            after_from = omega (arith, rest.after_from);
            within = omega (arith, rest.within);
            index = rest.index;
            free = rest.free;
            first = λ s a b. elim (dec_lt from s) [
              | yes later ↦ rest.first s (omega arith) b
              | no here ↦ let e : s ≡ from = omega arith in rw e taken
            ];
          }
    ]

-- GetValue and Remove find the key at try `at`.
pub record Finds (keys : List ℕ) (k from tries p : ℕ) : Type 0 where
  pub at : ℕ
  pub after_from : from ≤ at
  pub within : at < from + tries
  pub index : p ≡ try_index k at (length keys)
  pub holds : key_at keys k at ≡ k
  pub first : (s : ℕ) → from ≤ s → s < at → (key_at keys k s ≢ k) × (key_at keys k s ≢ empty_value)

pub find_slot-Finds :
    (keys : List ℕ) (k tries from : ℕ) {p : ℕ}
    → find_slot keys k tries from ≡ some p
    → Finds keys k from tries p
unfolding find_slot
find_slot-Finds keys k zero from h = absurd (cc)
find_slot-Finds keys k (suc tries) from {p} h = elim (ℕ_discrete (key_at keys k from) k) [
  | yes holds ↦ record {
    at = from;
    after_from = omega arith;
    within = omega arith;
    index = ground arith;
    holds = holds;
    first = λ s a b. absurd (omega arith);
  }
  | no other ↦
      let full : key_at keys k from ≢ empty_value = λ e. ground arith in
      let rest : Finds keys k (from + 1) tries p =
        find_slot-Finds keys k tries (from + 1) (ground arith) in
      record {
        at = rest.at;
        after_from = omega (arith, rest.after_from);
        within = omega (arith, rest.within);
        index = rest.index;
        holds = rest.holds;
        first = λ s a b. elim (dec_lt from s) [
          | yes later ↦ rest.first s (omega arith) b
          | no here ↦ let e : s ≡ from = omega arith in rw e (other, full)
        ];
      }
]

-- The other way round: such a try is what the loop finds.
pub Finds-find_slot :
    (keys : List ℕ) (k tries from : ℕ) {p : ℕ}
    → Finds keys k from tries p
    → find_slot keys k tries from ≡ some p
unfolding find_slot
Finds-find_slot keys k zero from f = absurd (omega (arith, f.after_from, f.within))
Finds-find_slot keys k (suc tries) from f = elim (dec_lt from f.at) [
  | yes later ↦ ground (
    arith,
    f.first from (omega arith) later,
    Finds-find_slot keys k tries (from + 1) (record {
      at = f.at;
      after_from = omega arith;
      within = omega (arith, f.within);
      index = f.index;
      holds = f.holds;
      first = λ s a b. f.first s (omega arith) b;
    }),
  )
  | no here ↦
      let e : from ≡ f.at = omega (arith, f.after_from) in ground (arith, e, f.holds, f.index)
]

-- Where no try holds the key, the loop finds nothing.
pub find_slot-none :
    (keys : List ℕ) (k tries from : ℕ)
    → ((s : ℕ) → from ≤ s → s < from + tries → key_at keys k s ≢ k)
    → find_slot keys k tries from ≡ none
unfolding find_slot
find_slot-none keys k zero from h = refl
find_slot-none keys k (suc tries) from h = ground (
  arith,
  h from (omega arith) (omega arith),
  find_slot-none keys k tries (from + 1) (λ s a b. h s (omega arith) (omega arith)),
)
