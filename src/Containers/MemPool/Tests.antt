-- ===== src/Containers/MemPool/Tests.antt =====
-- Runs of MemPool over three items of two words, and its theorems at them.
use yengine.Base.{
  ℕ, ◌*◌, ◌<◌, ◌≡◌, refl, ◌≢◌, ap, List, [], ◌∷◌, arith, ok, fault, assertion, length, get_or,
  replicate, get_or-replicate_lt, none32, Run, Returns, Returns-value, ◌>>=◌,
}
use yengine.Containers.MemPool.Indexes.{Indexes, IsLive, take, take_from, give}
use yengine.Containers.MemPool.Invariant.{Refines}
use yengine.Containers.MemPool.Ownership.{Granted, allocate-Granted}
use yengine.Containers.MemPool.Refine.{Answers, allocate-Answers, remove-Refines}
use yengine.Containers.MemPool.Setup.{all_free, init-Refines, clear-Refines}
use yengine.Containers.MemPool.{
  MemPool, allocation_size, init, clear, load, store, allocate, insert, remove, get_index,
}

program : Unit {0}
unfolding allocation_size init clear load store allocate insert remove get_index take take_from give
program = tt

abbrev items : List (List ℕ)
items = replicate 3 (0 ∷ 0 ∷ [])

abbrev fresh : MemPool
fresh = record {
  buffer = 64;
  item_size = 8;
  memory = items;
  used_indexes = 0;
  next_free_index = none32;
}

items_sized : (i : ℕ) → i < 3 → 4 * length (get_or items i []) ≡ 8
items_sized i h = ap (λ item. 4 * length item) (get_or-replicate_lt 3 i (0 ∷ 0 ∷ []) [] h)

init-Refines_example : Refines fresh (all_free 3)
unfolding program
init-Refines_example = init-Refines 64 24 8 items (omega arith) (omega arith) items_sized refl

clear-Refines_example : Refines (clear fresh) (all_free 3)
clear-Refines_example = clear-Refines fresh (all_free 3) init-Refines_example

allocate-Answers_example : Returns (allocate fresh) (Answers fresh (take (all_free 3)))
allocate-Answers_example = allocate-Answers fresh (all_free 3) init-Refines_example

abbrev one_used : MemPool
one_used = record fresh { used_indexes = 1 }

abbrev one_live : Indexes
one_live = record { free = []; used = 1; total = 3 }

one_used-Refines : Refines one_used one_live
unfolding program
one_used-Refines =
    (Returns-value (Answers fresh (take (all_free 3))) {b = (0, one_used)} allocate-Answers_example
      refl).1

allocate-Granted_example : Returns (allocate one_used) λ (i, p').
    (s' : Indexes) × Refines p' s'
    × (i ≢ none32 → Granted one_live i s')
    × (i ≡ none32 → (j : ℕ) → j < 3 → IsLive one_live j)
    × (p'.memory ≡ items)
allocate-Granted_example = allocate-Granted one_used one_live one_used-Refines

remove-Refines_example : Returns (remove one_used 0) λ p'.
    Refines p' (give one_live 0) × ((j : ℕ) → j ≢ 0 → get_or p'.memory j [] ≡ get_or items j [])
remove-Refines_example = remove-Refines one_used one_live 0 one_used-Refines (omega arith, tt)

-- The last index that came back is the first to be handed out again.
abbrev session : Run (ℕ × ℕ × ℕ × ℕ)
session = do
  (a, p₁) ← insert fresh (1 ∷ 2 ∷ [])
  (b, p₂) ← insert p₁ (3 ∷ 4 ∷ [])
  p₃ ← remove p₂ a
  p₄ ← remove p₃ b
  (c, p₅) ← allocate p₄
  (d, p₆) ← allocate p₅
  (e, p₇) ← allocate p₆
  (f, p₈) ← allocate p₇
  ok (c, d, e, f)

reuse : session ≡ ok (1, 0, 2, none32)
unfolding program
reuse = refl

remove_unused : remove fresh 0 ≡ fault assertion
unfolding program
remove_unused = refl
