-- ===== src/Containers/MemPool/Ownership.antt =====
-- Who holds an index of a MemPool.
use yengine.Base.{
  ℕ, ◌*◌, ◌≤◌, ◌<◌, ◌≡◌, refl, ◌≢◌, List, [], ◌∷◌, none, some, arith, length, get_or, set, memcpy,
  none32, Returns, length-set, get_or-set, drop-length, append-nil, lt→ltb, not_lt→ltb,
  Option-cases, subst, ◌∙◌, sym, inl, inr, ℕ_discrete, dec_lt,
}
use yengine.Containers.MemPool.Indexes.{Indexes, NotIn, Distinct, AllBelow, IsLive, take, take_from}
use yengine.Containers.MemPool.Invariant.{Refines, set-IsChain}
use yengine.Containers.MemPool.Refine.{to_index, allocate-Answers}
use yengine.Containers.MemPool.{MemPool, allocate, insert}

-- What an index that was handed out has changed.
pub record Granted (s : Indexes) (i : ℕ) (s' : Indexes) : Type 0 where
  pub in_range : i < s.total
  pub was_free : ¬ IsLive s i
  pub is_live : IsLive s' i
  pub others : (j : ℕ) → IsLive s j → IsLive s' j
  pub only : (j : ℕ) → j ≢ i → IsLive s' j → IsLive s j
  pub total : s'.total ≡ s.total

pub take_from-Granted :
    (free : List ℕ) (used total i : ℕ)
    → AllBelow used free
    → Distinct free
    → used ≤ total
    → (take_from free (record { free = free; used = used; total = total })).0 ≡ some i
    → Granted
        (record { free = free; used = used; total = total })
        i
        (take_from free (record { free = free; used = used; total = total })).1
unfolding take_from
take_from-Granted [] used total i below distinct le e = elim (dec_lt used total) [
  | yes room ↦
      let i-used : used ≡ i = ground (arith, room) in
      rw (lt→ltb used total room) (record {
        in_range = omega arith;
        was_free = λ live. omega (arith, live.0);
        is_live = (omega arith, tt);
        others = λ j live. (omega (arith, live.0), tt);
        only = λ j ne live. (omega (arith, ne, live.0, i-used), tt);
        total = refl;
      })
  | no full ↦ ground (arith, full)
]
take_from-Granted (k ∷ free) used total i below distinct le e =
    let i-k : k ≡ i = cc in
    rw (sym i-k) (record {
      in_range = omega (arith, below.0);
      was_free = λ live. live.1.0 refl;
      is_live = (below.0, distinct.0);
      others = λ j live. (live.0, live.1.1);
      only = λ j ne live. (live.0, (ne, live.1));
      total = refl;
    })

pub take_from-full :
    (free : List ℕ) (used total : ℕ)
    → (take_from free (record { free = free; used = used; total = total })).0 ≡ none
    → (free ≡ [])
      × (total ≤ used)
      × ((take_from free (record { free = free; used = used; total = total })).1
          ≡ record { free = free; used = used; total = total })
unfolding take_from
take_from-full [] used total e = elim (dec_lt used total) [
  | yes room ↦ absurd (ground (arith, room))
  | no full ↦ (refl, omega arith, rw (not_lt→ltb used total full) refl)
]
take_from-full (i ∷ free) used total e = cc

take-Granted :
    (p : MemPool) (s : Indexes) (i : ℕ)
    → Refines p s
    → i ≡ to_index (take s).0
    → (i ≢ none32 → Granted s i (take s).1) × (i ≡ none32 → (j : ℕ) → j < s.total → IsLive s j)
unfolding take
take-Granted p s i r answer = elim (Option-cases (take s).0) [
  | inl e ↦
      let (empty, whole, kept) = take_from-full s.free s.used s.total e in
      (λ ne. absurd (ne (rw e at answer)), λ _ j lt. (omega arith, subst (NotIn j) (sym empty) tt))
  | inr (k, e) ↦
      let granted = take_from-Granted s.free s.used s.total k r.below r.distinct r.in_total e in
      let i-k : i ≡ k = rw e at answer in
      (
        λ _. subst (λ k. Granted s k (take s).1) (sym i-k) granted,
        λ full. absurd (omega (arith, granted.in_range, r.word)),
      )
]

-- For a pool that refines an allocator of indexes, Allocate returns; it returns -1 only if every
-- index is handed out, and any other index is in range, was not handed out and now is, while all
-- others stay handed out and every item stays as it is.
pub allocate-Granted :
    (p : MemPool) (s : Indexes)
    → Refines p s
    → Returns (allocate p) λ (i, p').
      (s' : Indexes) × Refines p' s'
      × (i ≢ none32 → Granted s i s')
      × (i ≡ none32 → (j : ℕ) → j < s.total → IsLive s j)
      × (p'.memory ≡ p.memory)
allocate-Granted p s r =
    let ((i, p'), run, (answer, refines, same)) = allocate-Answers p s r in
    let (granted, full) = take-Granted p s i r answer in
    ((i, p'), run, ((take s).1, refines, granted, full, same))

-- A write of a whole item that is handed out.
write-Refines :
    (p : MemPool) (s : Indexes) (i : ℕ) (item : List ℕ)
    → Refines p s
    → IsLive s i
    → 4 * length item ≡ p.item_size
    → Refines (record p { memory = set p.memory i item }) s
write-Refines p s i item r live whole =
    let lt : i < length p.memory = omega (arith, live.0, r.in_total, r.total) in
    record {
      chain = set-IsChain p.memory i item s.free p.next_free_index live.1 r.chain;
      below = r.below;
      distinct = r.distinct;
      used = r.used;
      total = length-set p.memory i item ∙ r.total;
      in_total = r.in_total;
      word = r.word;
      sized = λ j h. ground (arith, get_or-set p.memory i j item [] lt, r.sized j);
      room = r.room;
    }

-- memcpy of as many words as there are replaces them all.
memcpy_whole : (old item : List ℕ) → length item ≡ length old → memcpy old item ≡ item
memcpy_whole old item e = rw (drop-length (length item) old e, append-nil)

-- For a pool that refines an allocator of indexes and an item of the size of the pool, Insert
-- returns, with the item at the index that Allocate grants, and leaves every other item as it is.
pub insert-Granted :
    (p : MemPool) (s : Indexes) (item : List ℕ)
    → Refines p s
    → 4 * length item ≡ p.item_size
    → Returns (insert p item) λ (i, p').
      (s' : Indexes) × Refines p' s'
      × (i ≢ none32 → Granted s i s')
      × (i ≢ none32 → get_or p'.memory i [] ≡ item)
      × ((j : ℕ) → j ≢ i → get_or p'.memory j [] ≡ get_or p.memory j [])
unfolding insert
insert-Granted p s item r whole =
    let ((i, p'), run, (s', refines, granted, full, same)) = allocate-Granted p s r in
    elim (ℕ_discrete i none32) [
      | yes no_index ↦ (
        (i, p'),
        rw run (ground (arith, no_index)),
        (s', refines, granted, λ ne. absurd (ne no_index), λ j _. rw same),
      )
      | no index ↦
          let g = granted index in
          let size : p'.item_size ≡ p.item_size = ground (
            arith,
            refines.sized i (omega (arith, g.in_range, g.total)),
            r.sized i g.in_range,
            same,
          ) in
          let lt : i < length p'.memory = omega (arith, g.in_range, g.total, refines.total) in
          let copy : memcpy (get_or p'.memory i []) item ≡ item =
            memcpy_whole (get_or p'.memory i []) item
              (omega (arith, refines.sized i (omega (arith, g.in_range, g.total)), size)) in
          (
            (i, record p' { memory = set p'.memory i item }),
            rw run (ground (arith, index, copy)),
            (
              s',
              write-Refines p' s' i item refines g.is_live (whole ∙ sym size),
              granted,
              λ _. ground (arith, get_or-set p'.memory i i item [] lt),
              λ j ne. ground (arith, get_or-set p'.memory i j item [] lt, same),
            ),
          )
    ]
