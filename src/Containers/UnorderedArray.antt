-- ===== src/Containers/UnorderedArray.antt =====
-- classes UnorderedArray and TypedUnorderedArray of ycommon/containers/unordered_array.h and
-- unordered_array.cpp.
pub mod Refine
pub mod PushBack
mod Tests
use yengine.Base.{
  ℕ, zero, suc, ◌+◌, ◌-◌, ◌*◌, Bool, true, false, not, List, [], ◌∷◌, Option, none, some, leb, ltb,
  ◌==◌, if◌then◌else◌, length, get_elem?, set, take, memcpy, Run, ok, fault, out_of_range, ◌>>=◌,
  ◌>>◌, require, assert, add32, sub32, mul64, none32,
}

-- `memory` has the mTotalSize places of the buffer. The callback works on what mCallbackArg points to,
-- the state `arg`; mItemSize is `item_size`.
pub record UnorderedArray {ℓ κ} (A : Type ℓ) (S : Type κ) : Type (ℓ ⊔ κ) where
  pub memory : List A
  pub item_size : ℕ
  pub item_count : ℕ
  pub pre_swap_item_callback : Option (ℕ → ℕ → S → S)
  pub callback_arg : S

pub get_allocation_size : ℕ → ℕ → ℕ
get_allocation_size item_size num_items = mul64 item_size num_items

module _ {ℓ} {A : Type ℓ} where
  -- memcpy(GetData(index), GetData(from), mItemSize)
  pub copy_item : List A → ℕ → ℕ → Run (List A)
  copy_item memory index from = elim (get_elem? memory from) [
    | none ↦ fault out_of_range
    | some item ↦ do require (ltb index (length memory)) out_of_range; ok (set memory index item)
  ]

module _ {ℓ κ} {A : Type ℓ} {S : Type κ} where
  abbrev pub total_size : UnorderedArray A S → ℕ
  total_size a = length a.memory

  -- `no_arg` is the state that no callback reads, at nullptr.
  pub init : ℕ → ℕ → List A → S → Run (UnorderedArray A S)
  init buffer_size item_size places no_arg = do
    assert (leb (get_allocation_size item_size (length places)) buffer_size)
    ok (record {
      memory = places;
      item_size = item_size;
      item_count = 0;
      pre_swap_item_callback = none;
      callback_arg = no_arg;
    })

  pub reset : S → UnorderedArray A S
  reset no_arg = record {
    memory = [];
    item_size = 0;
    item_count = 0;
    pre_swap_item_callback = none;
    callback_arg = no_arg;
  }

  pub clear : UnorderedArray A S → UnorderedArray A S
  clear a = record a { item_count = 0 }

  pub set_item_swapped_call_back :
      UnorderedArray A S → Option (ℕ → ℕ → S → S) → S → UnorderedArray A S
  set_item_swapped_call_back a callback_routine arg = record a {
    pre_swap_item_callback = callback_routine;
    callback_arg = arg;
  }

  pub allocate : UnorderedArray A S → ℕ × UnorderedArray A S
  allocate a =
      if ltb a.item_count (total_size a)
      then (a.item_count, record a { item_count = add32 a.item_count 1 })
      else (none32, a)

  -- The call of the callback, where one is set.
  pub notify : UnorderedArray A S → ℕ → ℕ → S
  notify a old_index new_index = elim a.pre_swap_item_callback [
    | none ↦ a.callback_arg
    | some callback ↦ callback old_index new_index a.callback_arg
  ]

  pub remove : UnorderedArray A S → ℕ → Run (UnorderedArray A S)
  remove a index = do
    assert (ltb index a.item_count)
    let last = sub32 a.item_count 1
    if index == last then ok (record a { item_count = last }) else do
      memory ← copy_item a.memory index last
      ok (record a { memory = memory; item_count = last; callback_arg = notify a last index })

  -- operator[], and GetData read as an item
  pub item_at : UnorderedArray A S → ℕ → Run A
  item_at a index = elim (get_elem? a.memory index) [
    | none ↦ fault out_of_range
    | some item ↦ ok item
  ]

module _ {κ} {S : Type κ} where
  -- TypedUnorderedArray::PushBack of the item at `item`, a list of its bytes. sizeof(data) is the size
  -- of the pointer, 8 bytes. With no place left, the index is that of no item.
  pub push_back : UnorderedArray (List ℕ) S → List ℕ → Run (ℕ × UnorderedArray (List ℕ) S)
  push_back a item = do
    let (index, a') = allocate a
    require (leb 8 (length item)) out_of_range
    old ← item_at a' index
    ok (index, record a' { memory = set a'.memory index (memcpy old (take 8 item)) })
