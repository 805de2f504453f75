-- ===== src/Containers/MemPool/Invariant.antt =====
-- The free list of MemPool, threaded through the items.
use yengine.Base.{
  ℕ, zero, suc, ◌*◌, ◌≤◌, ◌<◌, ◌≡◌, refl, ◌≢◌, List, [], ◌∷◌, arith, ok, length, get_or, set,
  none32, ap, Returns,
}
use yengine.Containers.MemPool.Indexes.{Indexes, NotIn, Distinct, AllBelow}
use yengine.Containers.MemPool.{MemPool, num_items, load, store}

-- The list that starts at `next` runs through these indexes.
abbrev pub IsChain : List (List ℕ) → ℕ → List ℕ → Type 0
IsChain memory next [] = next ≡ none32
IsChain memory next (i ∷ is) =
    (next ≡ i) × ((link : ℕ) × (load memory i ≡ ok link) × IsChain memory link is)

pub record Refines (p : MemPool) (s : Indexes) : Type 0 where
  pub chain : IsChain p.memory p.next_free_index s.free
  pub below : AllBelow s.used s.free
  pub distinct : Distinct s.free
  pub used : p.used_indexes ≡ s.used
  pub total : num_items p ≡ s.total
  pub in_total : s.used ≤ s.total
  pub word : s.total ≤ none32
  pub sized : (i : ℕ) → i < s.total → 4 * length (get_or p.memory i []) ≡ p.item_size
  pub room : 4 ≤ p.item_size

-- An item with a first word can be read and written.
pub load-ok :
    (memory : List (List ℕ)) (i : ℕ)
    → i < length memory
    → 1 ≤ length (get_or memory i [])
    → Returns (load memory i) (λ _. Unit {0})
unfolding load
load-ok [] i h k = absurd (omega arith)
load-ok ([] ∷ items) zero h k = absurd (omega arith)
load-ok ((word ∷ words) ∷ items) zero h k = (word, refl, tt)
load-ok ([] ∷ items) (suc i) h k = load-ok items i (omega arith) k
load-ok ((w ∷ ws) ∷ items) (suc i) h k = load-ok items i (omega arith) k

-- The written item: its first word is new, its other words are kept.
abbrev pub relink : ℕ → List ℕ → List ℕ
relink word [] = []
relink word (old ∷ words) = word ∷ words

pub store-set :
    (memory : List (List ℕ)) (i word : ℕ)
    → i < length memory
    → 1 ≤ length (get_or memory i [])
    → store memory i word ≡ ok (set memory i (relink word (get_or memory i [])))
unfolding store
store-set [] i word h k = absurd (omega arith)
store-set ([] ∷ items) zero word h k = absurd (omega arith)
store-set ((old ∷ words) ∷ items) zero word h k = refl
store-set ([] ∷ items) (suc i) word h k = rw (store-set items i word (omega arith) k)
store-set ((w ∷ ws) ∷ items) (suc i) word h k = rw (store-set items i word (omega arith) k)

pub load-set_self :
    (memory : List (List ℕ)) (i word : ℕ)
    → i < length memory
    → 1 ≤ length (get_or memory i [])
    → load (set memory i (relink word (get_or memory i []))) i ≡ ok word
unfolding load
load-set_self [] i word h k = absurd (omega arith)
load-set_self ([] ∷ items) zero word h k = absurd (omega arith)
load-set_self ((old ∷ words) ∷ items) zero word h k = refl
load-set_self ([] ∷ items) (suc i) word h k = load-set_self items i word (omega arith) k
load-set_self ((w ∷ ws) ∷ items) (suc i) word h k = load-set_self items i word (omega arith) k

pub load-set_ne :
    (memory : List (List ℕ)) (i j : ℕ) (item : List ℕ)
    → i ≢ j
    → load (set memory i item) j ≡ load memory j
unfolding load
load-set_ne [] i j item h = refl
load-set_ne ([] ∷ items) zero zero item h = absurd (h refl)
load-set_ne ((w ∷ ws) ∷ items) zero zero item h = absurd (h refl)
load-set_ne ([] ∷ items) zero (suc j) [] h = refl
load-set_ne ([] ∷ items) zero (suc j) (x ∷ xs) h = refl
load-set_ne ((w ∷ ws) ∷ items) zero (suc j) [] h = refl
load-set_ne ((w ∷ ws) ∷ items) zero (suc j) (x ∷ xs) h = refl
load-set_ne ([] ∷ items) (suc i) zero item h = refl
load-set_ne ((w ∷ ws) ∷ items) (suc i) zero item h = refl
load-set_ne ([] ∷ items) (suc i) (suc j) item h = load-set_ne items i j item (λ e. h (ap suc e))
load-set_ne ((w ∷ ws) ∷ items) (suc i) (suc j) item h =
    load-set_ne items i j item (λ e. h (ap suc e))

-- A write to an item outside the free list leaves the list as it is.
pub set-IsChain :
    (memory : List (List ℕ)) (i : ℕ) (item free : List ℕ) (next : ℕ)
    → NotIn i free
    → IsChain memory next free
    → IsChain (set memory i item) next free
set-IsChain memory i item [] next apart chain = chain
set-IsChain memory i item (j ∷ free) next apart (start, (link, read, rest)) = (
  start,
  (
    link,
    rw (load-set_ne memory i j item apart.0) read,
    set-IsChain memory i item free link apart.1 rest,
  ),
)
