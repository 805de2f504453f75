-- ===== src/Containers/AtomicMemPool/Refine.antt =====
-- AtomicMemPool hands out and takes back indexes as `Indexes` does.
use yengine.Base.{
  ℕ, ◌+◌, ◌^◌, ◌≤◌, ◌<◌, ◌≡◌, refl, ◌≢◌, List, [], ◌∷◌, Option, some, arith, get_elem?, set, word32,
  none32, Returns, length-set, get_elem?-set_ne, get_elem?-set_self, lt→ltb, not_lt→ltb, ne→==, ◌∙◌,
  sym, dec_lt, ok, subst, ap, Option-cases, inl, inr,
}
use yengine.Headers.AtomicNumberMask.{get_cnt, get_num, construct_next_value, construct_value_parts}
use yengine.Containers.MemPool.Indexes.{
  Indexes, NotIn, Distinct, AllBelow, IsLive, take, take_from, give,
}
use yengine.Containers.MemPool.Refine.{to_index}
use yengine.Containers.MemPool.Ownership.{Granted, take_from-Granted, take_from-full}
use yengine.Containers.AtomicMemPool.{Item, link, AtomicMemPool, num_items, load, allocate, remove}

module _ {A : Type 0} where
  -- The list that starts at `next` runs through these indexes.
  abbrev pub IsChain : List (Item A) → ℕ → List ℕ → Type 0
  IsChain memory next [] = next ≡ none32
  IsChain memory next (i ∷ is) =
      (next ≡ i)
      × ((n : ℕ) × (get_elem? memory i ≡ some (link n)) × (n < 2 ^ 32) × IsChain memory n is)

  pub record Refines (p : AtomicMemPool A) (s : Indexes) : Type 0 where
    pub chain : IsChain p.memory (word32 (get_num p.next_free_index)) s.free
    pub below : AllBelow s.used s.free
    pub distinct : Distinct s.free
    pub used : p.used_indexes ≡ s.used
    pub total : num_items p ≡ s.total
    pub in_total : s.used ≤ s.total
    pub word : s.total ≤ none32

  -- A write to an item outside the free list leaves the list as it is.
  pub set-IsChain :
      (memory : List (Item A)) (i : ℕ) (item : Item A) (free : List ℕ) (next : ℕ)
      → NotIn i free
      → IsChain memory next free
      → IsChain (set memory i item) next free
  set-IsChain memory i item [] next apart chain = chain
  set-IsChain memory i item (j ∷ free) next apart (start, (n, read, fits, rest)) = (
    start,
    (
      n,
      rw (get_elem?-set_ne memory i j item apart.0) read,
      fits,
      set-IsChain memory i item free n apart.1 rest,
    ),
  )

-- The number that the exchange stores.
next_num :
    (count number : ℕ)
    → number < 2 ^ 32
    → word32 (get_num (construct_next_value count number)) ≡ number
unfolding construct_next_value
next_num count number h = omega (arith, (construct_value_parts (count + 1) number).1)

module _ {A : Type 0} where
  -- The pool answers as the specification does, refines what that leaves, and keeps its items.
  abbrev pub Answers : AtomicMemPool A → Option ℕ × Indexes → ℕ × AtomicMemPool A → Type 0
  Answers p (answer, s') (index, p') =
      (index ≡ to_index answer) × Refines p' s' × (p'.memory ≡ p.memory)

  allocate_from :
      (p : AtomicMemPool A) (free : List ℕ) (used total : ℕ)
      → Refines p (record { free = free; used = used; total = total })
      → Returns
          (allocate p)
          (Answers p (take_from free (record { free = free; used = used; total = total })))
  unfolding allocate take_from load
  allocate_from p [] used total r = elim (dec_lt used total) [
    | yes room ↦ (
      (used, record p { used_indexes = used + 1 }),
      rw (r.chain, r.used, r.total, lt→ltb used total room)
          (ap (λ n. ok (used, record p { used_indexes = n })) (omega (arith, r.word))),
      rw (lt→ltb used total room) (
        refl,
        record {
          chain = r.chain;
          below = tt;
          distinct = tt;
          used = refl;
          total = r.total;
          in_total = omega arith;
          word = r.word;
        },
        refl,
      ),
    )
    | no full ↦ (
      (none32, p),
      ground (arith, r.chain, r.used, r.total),
      rw (not_lt→ltb used total full) (refl, r, refl),
    )
  ]
  allocate_from p (i ∷ free) used total r =
      let (start, (n, read, fits, rest)) = r.chain in
      (
        (i, record p { next_free_index = construct_next_value (get_cnt p.next_free_index) n }),
        rw (start, ne→== i none32 (omega (arith, r.below.0, r.in_total, r.word)), load, read) refl,
        (
          refl,
          record {
            chain = rw (next_num (get_cnt p.next_free_index) n fits) rest;
            below = r.below.1;
            distinct = r.distinct.1;
            used = r.used;
            total = r.total;
            in_total = r.in_total;
            word = r.word;
          },
          refl,
        ),
      )

  -- For a pool that refines an allocator of indexes and that no other thread uses, Allocate returns
  -- what the allocator answers, with -1 for no index, leaves a pool that refines what the allocator
  -- then is, and writes no item.
  pub allocate-Answers :
      (p : AtomicMemPool A) (s : Indexes) → Refines p s → Returns (allocate p) (Answers p (take s))
  unfolding take
  allocate-Answers p s r = allocate_from p s.free s.used s.total r

  pub remove-Refines_lem :
      (p : AtomicMemPool A) (s : Indexes) (i : ℕ)
      → Refines p s
      → IsLive s i
      → Returns (remove p i) λ p'.
        Refines p' (give s i) × ((j : ℕ) → j ≢ i → get_elem? p'.memory j ≡ get_elem? p.memory j)
  unfolding remove give
  remove-Refines_lem p s i r live =
      let lt : i < num_items p = omega (arith, live.0, r.in_total, r.total) in
      let next = word32 (get_num p.next_free_index) in
      let fits : i < 2 ^ 32 = omega (arith, live.0, r.in_total, r.word) in
      (
        record p {
          memory = set p.memory i (link next);
          next_free_index = construct_next_value (get_cnt p.next_free_index) i;
        },
        rw (lt→ltb _ _ lt) refl,
        (
          record {
            chain = (
              next_num (get_cnt p.next_free_index) i fits,
              (
                next,
                get_elem?-set_self p.memory i (link next) lt,
                omega arith,
                set-IsChain p.memory i (link next) s.free next live.1 r.chain,
              ),
            );
            below = (live.0, r.below);
            distinct = (live.1, r.distinct);
            used = r.used;
            total = length-set p.memory i (link next) ∙ r.total;
            in_total = r.in_total;
            word = r.word;
          },
          λ j ne. get_elem?-set_ne p.memory i j (link next) (λ e. ne (sym e)),
        ),
      )

  take-Granted :
      (p : AtomicMemPool A) (s : Indexes) (i : ℕ)
      → Refines p s
      → i ≡ to_index (take s).0
      → (i ≢ none32 → Granted s i (take s).1)
        × (i ≡ none32 → (j : ℕ) → j < s.total → IsLive s j)
        × (i ≡ none32 → (take s).1 ≡ s)
  unfolding take
  take-Granted p s i r answer = elim (Option-cases (take s).0) [
    | inl e ↦
        let (empty, whole, kept) = take_from-full s.free s.used s.total e in
        (
          λ ne. absurd (ne (rw e at answer)),
          λ _ j lt. (omega arith, subst (NotIn j) (sym empty) tt),
          λ _. kept,
        )
    | inr (k, e) ↦
        let granted = take_from-Granted s.free s.used s.total k r.below r.distinct r.in_total e in
        let i-k : i ≡ k = rw e at answer in
        (
          λ _. subst (λ k. Granted s k (take s).1) (sym i-k) granted,
          λ full. absurd (omega (arith, granted.in_range, r.word)),
          λ full. absurd (omega (arith, granted.in_range, r.word)),
        )
  ]

  pub allocate-Granted_lem :
      (p : AtomicMemPool A) (s : Indexes)
      → Refines p s
      → Returns (allocate p) λ (i, p').
        (s' : Indexes) × Refines p' s'
        × (i ≢ none32 → Granted s i s')
        × (i ≡ none32 → (j : ℕ) → j < s.total → IsLive s j)
        × (i ≡ none32 → s' ≡ s)
        × (p'.memory ≡ p.memory)
  allocate-Granted_lem p s r =
      let ((i, p'), run, (answer, refines, same)) = allocate-Answers p s r in
      let (granted, full, kept) = take-Granted p s i r answer in
      ((i, p'), run, ((take s).1, refines, granted, full, kept, same))
