-- ===== src/Containers/MemPool/Refine.antt =====
-- MemPool hands out and takes back indexes as `Indexes` does, and leaves the items that are handed out
-- alone.
use yengine.Base.{
  ℕ, ◌+◌, ◌≤◌, ◌<◌, ◌≡◌, refl, ◌≢◌, List, [], ◌∷◌, Option, none, some, arith, length, get_or, set,
  none32, Returns, length-set, get_or-set, lt→ltb, not_lt→ltb, ◌∙◌, dec_lt,
}
use yengine.Containers.MemPool.Indexes.{Indexes, IsLive, take, take_from, give}
use yengine.Containers.MemPool.Invariant.{Refines, relink, store-set, load-set_self, set-IsChain}
use yengine.Containers.MemPool.{MemPool, allocate, remove}

-- The index that stands for the answer; -1 where the pool is full.
abbrev pub to_index : Option ℕ → ℕ
to_index none = none32
to_index (some i) = i

-- The pool answers as the specification does, refines what that leaves, and keeps its items.
abbrev pub Answers : MemPool → Option ℕ × Indexes → ℕ × MemPool → Type 0
Answers p (answer, s') (index, p') =
    (index ≡ to_index answer) × Refines p' s' × (p'.memory ≡ p.memory)

allocate_from :
    (p : MemPool) (free : List ℕ) (used total : ℕ)
    → Refines p (record { free = free; used = used; total = total })
    → Returns
        (allocate p)
        (Answers p (take_from free (record { free = free; used = used; total = total })))
unfolding allocate take_from
allocate_from p [] used total r = elim (dec_lt used total) [
  | yes room ↦ (
    (used, record p { used_indexes = used + 1 }),
    ground (arith, r.chain, r.used, r.total, r.in_total, r.word),
    rw (lt→ltb used total room) (
      refl,
      record {
        chain = r.chain;
        below = tt;
        distinct = tt;
        used = refl;
        total = r.total;
        in_total = omega arith;
        word = r.word;
        sized = r.sized;
        room = r.room;
      },
      refl,
    ),
  )
  | no full ↦ (
    (none32, p),
    ground (arith, r.chain, r.used, r.total),
    rw (not_lt→ltb used total full) (refl, r, refl),
  )
]
allocate_from p (i ∷ free) used total r =
    let (start, (link, read, rest)) = r.chain in
    (
      (i, record p { next_free_index = link }),
      ground (arith, start, read, r.below.0, r.in_total, r.word),
      (
        refl,
        record {
          chain = rest;
          below = r.below.1;
          distinct = r.distinct.1;
          used = r.used;
          total = r.total;
          in_total = r.in_total;
          word = r.word;
          sized = r.sized;
          room = r.room;
        },
        refl,
      ),
    )

-- Allocate answers as `take` does, and writes no item.
pub allocate-Answers :
    (p : MemPool) (s : Indexes) → Refines p s → Returns (allocate p) (Answers p (take s))
unfolding take
allocate-Answers p s r = allocate_from p s.free s.used s.total r

-- Where the item of an index in range has a first word.
has_word :
    {p : MemPool} {s : Indexes} (i : ℕ)
    → Refines p s
    → i < s.used
    → (i < length p.memory) × (1 ≤ length (get_or p.memory i []))
has_word {p} {s} i r lt = omega (arith, r.in_total, r.total, r.sized i, r.room)

length-relink : (word : ℕ) (item : List ℕ) → length (relink word item) ≡ length item
length-relink word [] = refl
length-relink word (w ∷ ws) = refl

-- For a pool that refines an allocator of indexes, Remove of an index that is handed out returns,
-- gives the index back, and leaves every other item as it is.
pub remove-Refines :
    (p : MemPool) (s : Indexes) (i : ℕ)
    → Refines p s
    → IsLive s i
    → Returns (remove p i) λ p'.
      Refines p' (give s i) × ((j : ℕ) → j ≢ i → get_or p'.memory j [] ≡ get_or p.memory j [])
unfolding remove give
remove-Refines p s i r live =
    let (lt, word) = has_word i r live.0 in
    let item = relink p.next_free_index (get_or p.memory i []) in
    (
      record p { memory = set p.memory i item; next_free_index = i },
      rw (store-set p.memory i p.next_free_index lt word) (ground (arith, r.used, live.0)),
      (
        record {
          chain = (
            refl,
            (
              p.next_free_index,
              load-set_self p.memory i p.next_free_index lt word,
              set-IsChain p.memory i item s.free p.next_free_index live.1 r.chain,
            ),
          );
          below = (live.0, r.below);
          distinct = (live.1, r.distinct);
          used = r.used;
          total = length-set p.memory i item ∙ r.total;
          in_total = r.in_total;
          word = r.word;
          sized = λ j h. ground (
            arith,
            get_or-set p.memory i j item [] lt,
            r.sized j,
            r.sized i,
            length-relink p.next_free_index (get_or p.memory i []),
          );
          room = r.room;
        },
        λ j ne. ground (arith, get_or-set p.memory i j item [] lt),
      ),
    )
