-- ===== src/Containers/AtomicQueue.antt =====
-- class AtomicQueue of ycommon/containers/atomic_queue.h and atomic_queue.cpp.
pub mod Positions
pub mod Window
pub mod Refine
pub mod Consume
mod Tests
use yengine.Base.{
  ℕ, zero, suc, ◌+◌, ◌-◌, ◌*◌, ◌/◌, ◌%◌, Bool, true, false, not, ◌&&◌, List, [], ◌∷◌, Option, none,
  some, leb, ltb, ◌==◌, if◌then◌else◌, length, get_elem?, set, Run, ok, fault, out_of_range,
  division_by_zero, ◌>>=◌, ◌>>◌, require, assert, mul64, add64,
}
use yengine.Headers.AtomicNumberMask.{get_cnt, get_num, construct_value, construct_next_value}

-- `memory` is the list of the mNumItems places in the buffer, each of item_size bytes. The numbers in
-- `head` and `tail` are offsets into the buffer, in bytes.
pub record AtomicQueue {ℓ} (A : Type ℓ) : Type ℓ where
  pub memory : List A
  pub item_size : ℕ
  pub head : ℕ
  pub tail : ℕ

-- Numbers match, but counters do not.
abbrev pub is_full : ℕ → ℕ → Bool
is_full cur_head cur_tail = get_num cur_head == get_num cur_tail && not (cur_head == cur_tail)

module _ {ℓ} {A : Type ℓ} where
  abbrev pub num_items : AtomicQueue A → ℕ
  num_items q = length q.memory

  pub initialize : ℕ → ℕ → List A → Run (AtomicQueue A)
  initialize buffer_size item_size places = do
    assert (leb (mul64 item_size (length places)) buffer_size)
    ok (record { memory = places; item_size = item_size; head = 0; tail = 0 })

  -- new_tail and new_head_val: past the last place the number starts over, and the counter goes up.
  abbrev pub advance : AtomicQueue A → ℕ → ℕ
  advance q value =
      let new_num = add64 (get_num value) q.item_size in
      if new_num == mul64 q.item_size (num_items q)
      then construct_next_value (get_cnt value) 0
      else construct_value (get_cnt value) new_num

  -- The place at an offset. The queue puts its offsets at multiples of the item size.
  abbrev pub place : AtomicQueue A → ℕ → ℕ
  place q offset = offset / q.item_size

  -- memcpy of the item to an offset of the buffer
  pub write_item : AtomicQueue A → ℕ → A → Run (AtomicQueue A)
  write_item q offset item = do
    require (ltb (place q offset) (num_items q)) out_of_range
    ok (record q { memory = set q.memory (place q offset) item })

  -- memcpy of an item from an offset of the buffer
  pub read_item : AtomicQueue A → ℕ → Run A
  read_item q offset = elim (get_elem? q.memory (place q offset)) [
    | none ↦ fault out_of_range
    | some item ↦ ok item
  ]

  pub enqueue : AtomicQueue A → A → Run (Bool × AtomicQueue A)
  enqueue q item = if is_full q.head q.tail then ok (false, q) else do
    q' ← write_item q (get_num q.tail) item
    ok (true, record q' { tail = advance q q.tail })

  -- AtomicCmpSet64(&mHead, expected, value)
  pub compare_and_set_head : AtomicQueue A → ℕ → ℕ → Bool × AtomicQueue A
  compare_and_set_head q expected value =
      if q.head == expected then (true, record q { head = value }) else (false, q)

  -- A round of the loop up to the exchange: none where the queue is empty, or the head that was read,
  -- the item copied and the head to set.
  pub dequeue_read : AtomicQueue A → Run (Option (ℕ × A × ℕ))
  dequeue_read q =
      if q.head == q.tail
      then ok none
      else do item ← read_item q (get_num q.head); ok (some (q.head, item, advance q q.head))

  -- A call of Dequeue during which no other thread moves the head: the exchange of the first round
  -- succeeds.
  pub dequeue : AtomicQueue A → Run (Option A × AtomicQueue A)
  dequeue q = do
    round ← dequeue_read q
    elim round [
      | none ↦ ok (none, q)
      | some r ↦
          (let (done, q') = compare_and_set_head q r.0 r.2 in
            if done then ok (some r.1, q') else ok (none, q'))
    ]

  pub current_size : AtomicQueue A → Run ℕ
  current_size q =
      let head_num = get_num q.head in
      let tail_num = get_num q.tail in
      if head_num == tail_num then ok (if q.head == q.tail then 0 else q.item_size) else do
        require (ltb 0 q.item_size) division_by_zero
        ok (
            if ltb head_num tail_num
            then (tail_num - head_num) / q.item_size
            else (add64 tail_num (mul64 q.item_size (num_items q)) - head_num) / q.item_size)
