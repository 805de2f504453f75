-- ===== src/Containers/AtomicMemPool.antt =====
-- class AtomicMemPool of ycommon/containers/atomic_mem_pool.h and atomic_mem_pool.cpp, in calls during
-- which no other thread uses the pool: the first exchange of each loop succeeds.
pub mod Refine
pub mod Setup
mod Tests
use yengine.Base.{
  ℕ, ◌+◌, ◌-◌, ◌*◌, ◌/◌, ◌%◌, ◌&&◌, List, none, some, leb, ltb, min, ◌==◌, if◌then◌else◌, length,
  get_elem?, set, Run, ok, fault, out_of_range, division_by_zero, ◌>>=◌, ◌>>◌, require, assert,
  add32, mul64, word32, none32,
}
use yengine.Headers.AtomicNumberMask.{get_cnt, get_num, construct_value, construct_next_value}

-- An item of the buffer: a value, or the index of the next free item in its first word, which
-- overwrites the value.
pub data Item (A : Type 0) : Type 0 where
  value : A → Item A
  link : ℕ → Item A

-- The pool has as many items as `memory`, which is mNumItems.
pub record AtomicMemPool (A : Type 0) : Type 0 where
  pub buffer : ℕ
  pub item_size : ℕ
  pub memory : List (Item A)
  pub used_indexes : ℕ
  pub next_free_index : ℕ

-- CONSTRUCT_VALUE(0, static_cast<uint32_t>(-1))
abbrev pub no_free_index : ℕ
unfolding construct_value
no_free_index = construct_value 0 none32

module _ {A : Type 0} where
  abbrev pub num_items : AtomicMemPool A → ℕ
  num_items p = length p.memory

  -- `items` is what the buffer holds; Init writes none of it.
  unfoldable pub init : ℕ → ℕ → ℕ → List (Item A) → Run (AtomicMemPool A)
  init buffer buffer_size item_size items = do
    assert (buffer % 4 == 0)
    assert (item_size % 4 == 0)
    assert (leb (mul64 item_size (length items)) buffer_size)
    ok (record {
      buffer = buffer;
      item_size = item_size;
      memory = items;
      used_indexes = 0;
      next_free_index = no_free_index;
    })

  -- *next_free_loc. A value is no link: no item on the free list is one.
  unfoldable pub load : List (Item A) → ℕ → Run ℕ
  load items i = elim (get_elem? items i) [
    | none ↦ fault out_of_range
    | some (value v) ↦ fault out_of_range
    | some (link next) ↦ ok next
  ]

  unfoldable pub allocate : AtomicMemPool A → Run (ℕ × AtomicMemPool A)
  allocate p =
      let next_num = word32 (get_num p.next_free_index) in
      if next_num == none32
      then (if ltb p.used_indexes (num_items p)
          then (let new_index = p.used_indexes in
              let p' = record p { used_indexes = add32 new_index 1 } in
              if ltb new_index (num_items p) then ok (new_index, p') else ok (none32, p'))
          else ok (none32, p))
      else do
        next ← load p.memory next_num
        let value = construct_next_value (get_cnt p.next_free_index) next
        ok (next_num, record p { next_free_index = value })

  unfoldable pub remove : AtomicMemPool A → ℕ → Run (AtomicMemPool A)
  remove p index = do
    let next_free_index = word32 (get_num p.next_free_index)
    require (ltb index (num_items p)) out_of_range
    let value = construct_next_value (get_cnt p.next_free_index) index
    ok (record p { memory = set p.memory index (link next_free_index); next_free_index = value })

  pub insert : AtomicMemPool A → A → Run (ℕ × AtomicMemPool A)
  insert p item = do
    (free_index, p') ← allocate p
    ok (
        if free_index == none32
        then (free_index, p')
        else (free_index, record p' { memory = set p'.memory free_index (value item) }))

  -- GetIndex of the address of an item
  pub get_index : AtomicMemPool A → ℕ → Run ℕ
  get_index p item = do
    require (ltb 0 p.item_size) division_by_zero
    let index = (item - p.buffer) / p.item_size
    assert (leb p.buffer item && ((item - p.buffer) % p.item_size == 0 && ltb index p.used_indexes))
    ok (word32 index)

  pub get_num_indexes_used : AtomicMemPool A → ℕ
  get_num_indexes_used p = min p.used_indexes (num_items p)
