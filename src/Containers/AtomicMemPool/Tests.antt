-- ===== src/Containers/AtomicMemPool/Tests.antt =====
-- AtomicMemPool over three items, of which the first was handed out and came back.
use yengine.Base.{ℕ, ◌^◌, refl, [], ◌∷◌, arith, Returns, none32}
use yengine.Headers.AtomicNumberMask.{get_num}
use yengine.Containers.MemPool.Indexes.{Indexes, take}
use yengine.Containers.AtomicMemPool.{value, link, AtomicMemPool, allocate}
use yengine.Containers.AtomicMemPool.Refine.{Refines, Answers, allocate-Answers}

-- The counter of the list of free items is at 1.
abbrev one_free : AtomicMemPool ℕ
one_free = record {
  buffer = 64;
  item_size = 4;
  memory = link none32 ∷ value 0 ∷ value 0 ∷ [];
  used_indexes = 1;
  next_free_index = 2 ^ 56;
}

abbrev indexes : Indexes
indexes = record { free = 0 ∷ []; used = 1; total = 3 }

one_free-Refines : Refines one_free indexes
unfolding get_num
one_free-Refines = record {
  chain = (refl, (none32, refl, omega arith, refl));
  below = (omega arith, tt);
  distinct = (tt, tt);
  used = refl;
  total = refl;
  in_total = omega arith;
  word = omega arith;
}

pool-Answers_example : Returns (allocate one_free) (Answers one_free (take indexes))
pool-Answers_example = allocate-Answers one_free indexes one_free-Refines
