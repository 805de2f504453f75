-- ===== src/Containers/AtomicMemPool/Setup.antt =====
-- Init of AtomicMemPool.
use yengine.Base.{ℕ, ◌≤◌, ◌≡◌, refl, List, arith, length, ok, none32}
use yengine.Headers.AtomicNumberMask.{get_num}
use yengine.Containers.MemPool.Setup.{all_free}
use yengine.Containers.AtomicMemPool.{Item, AtomicMemPool, no_free_index, init}
use yengine.Containers.AtomicMemPool.Refine.{Refines}

module _ {A : Type 0} where
  abbrev pub initial : ℕ → ℕ → List (Item A) → AtomicMemPool A
  initial buffer item_size items = record {
    buffer = buffer;
    item_size = item_size;
    memory = items;
    used_indexes = 0;
    next_free_index = no_free_index;
  }

  pub init-ok :
      (buffer buffer_size item_size : ℕ) (items : List (Item A)) (p : AtomicMemPool A)
      → init buffer buffer_size item_size items ≡ ok p
      → p ≡ initial buffer item_size items
  unfolding init
  init-ok buffer buffer_size item_size items p e = ground arith

  -- Nothing is handed out.
  pub initial-Refines :
      (buffer item_size : ℕ) (items : List (Item A))
      → length items ≤ none32
      → Refines (initial buffer item_size items) (all_free (length items))
  unfolding get_num no_free_index
  initial-Refines buffer item_size items few = record {
    chain = refl;
    below = tt;
    distinct = tt;
    used = refl;
    total = refl;
    in_total = omega arith;
    word = few;
  }
