-- ===== src/Containers/MemPool.antt =====
-- class MemPool of ycommon/containers/mem_pool.h and mem_pool.cpp.
pub mod Indexes
pub mod Invariant
pub mod Refine
pub mod Ownership
pub mod Setup
mod Tests
use yengine.Base.{
  ℕ, zero, suc, ◌+◌, ◌-◌, ◌*◌, ◌/◌, ◌%◌, Bool, true, false, ◌&&◌, List, [], ◌∷◌, Option, none, some,
  leb, ltb, ◌==◌, if◌then◌else◌, length, get_or, get_elem?, set, memcpy, Run, ok, fault,
  out_of_range, division_by_zero, ◌>>=◌, ◌>>◌, require, assert, add32, mul64, word32, none32,
}

-- An item is the list of its 32-bit words, since Init asks for a size that is a multiple of four
-- bytes; a removed item has the index of the next free one in its first word. The pool has as many
-- items as `memory`, which is mNumItems.
pub record MemPool : Type 0 where
  pub buffer : ℕ
  pub item_size : ℕ
  pub memory : List (List ℕ)
  pub used_indexes : ℕ
  pub next_free_index : ℕ

abbrev pub num_items : MemPool → ℕ
num_items p = length p.memory

pub allocation_size : ℕ → ℕ → ℕ
allocation_size item_size num_items = mul64 item_size num_items

-- MemPool(), and Reset
pub reset : MemPool
reset = record {
  buffer = 0;
  item_size = 0;
  memory = [];
  used_indexes = 0;
  next_free_index = none32;
}

-- `items` is what the buffer holds; Init writes none of it.
pub init : ℕ → ℕ → ℕ → List (List ℕ) → Run MemPool
init buffer buffer_size item_size items = do
  assert (buffer % 4 == 0)
  assert (item_size % 4 == 0)
  assert (leb (allocation_size item_size (length items)) buffer_size)
  ok (record {
    buffer = buffer;
    item_size = item_size;
    memory = items;
    used_indexes = 0;
    next_free_index = none32;
  })

pub clear : MemPool → MemPool
clear p = record p { used_indexes = 0; next_free_index = none32 }

-- *free_item, the first word of an item
pub load : List (List ℕ) → ℕ → Run ℕ
load [] i = fault out_of_range
load ([] ∷ items) zero = fault out_of_range
load ((word ∷ words) ∷ items) zero = ok word
load (item ∷ items) (suc i) = load items i

-- *free_item = word
pub store : List (List ℕ) → ℕ → ℕ → Run (List (List ℕ))
store [] i word = fault out_of_range
store ([] ∷ items) zero word = fault out_of_range
store ((old ∷ words) ∷ items) zero word = ok ((word ∷ words) ∷ items)
store (item ∷ items) (suc i) word = do rest ← store items i word; ok (item ∷ rest)

pub allocate : MemPool → Run (ℕ × MemPool)
allocate p =
    if p.next_free_index == none32
    then if ltb p.used_indexes (num_items p)
      then ok (p.used_indexes, record p { used_indexes = add32 p.used_indexes 1 })
      else ok (none32, p)
    else do
      link ← load p.memory p.next_free_index
      ok (p.next_free_index, record p { next_free_index = link })

-- `item` is what the pointer `data_item` leads to, of mItemSize bytes.
pub insert : MemPool → List ℕ → Run (ℕ × MemPool)
insert p item = do
  (free_index, p') ← allocate p
  ok (
      if free_index == none32 then (free_index, p') else (
        free_index,
        record p' {
          memory = set p'.memory free_index (memcpy (get_or p'.memory free_index []) item);
        },
      ))

pub remove : MemPool → ℕ → Run MemPool
remove p index = do
  assert (ltb index p.used_indexes)
  memory ← store p.memory index p.next_free_index
  ok (record p { memory = memory; next_free_index = index })

-- GetIndex of the address of an item
pub get_index : MemPool → ℕ → Run ℕ
get_index p item = do
  require (ltb 0 p.item_size) division_by_zero
  let index = (item - p.buffer) / p.item_size
  assert (leb p.buffer item && ((item - p.buffer) % p.item_size == 0 && ltb index p.used_indexes))
  ok (word32 index)

pub get_num_indexes_used : MemPool → ℕ
get_num_indexes_used p = p.used_indexes
