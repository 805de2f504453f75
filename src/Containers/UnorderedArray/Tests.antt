-- ===== src/Containers/UnorderedArray/Tests.antt =====
-- UnorderedArray over four places.
use yengine.Base.{
  ℕ, ◌+◌, ◌<◌, ◌≡◌, ◌≢◌, refl, List, [], ◌∷◌, ◌++◌, none, some, arith, ok, Returns, if◌then◌else◌,
  ◌==◌, get_elem?, replicate, none32,
}
use yengine.Containers.UnorderedArray.{
  UnorderedArray, init, reset, clear, set_item_swapped_call_back, allocate, notify, copy_item,
  remove, item_at, push_back, get_allocation_size,
}
use yengine.Containers.UnorderedArray.Refine.{
  IsValid, Follows, Swapped, allocate_lem, remove-Swapped,
}
use yengine.Containers.UnorderedArray.PushBack.{remove-Follows, push_back-Pushed, Pushed}

program : Unit {0}
unfolding init reset clear set_item_swapped_call_back allocate notify copy_item remove item_at
    push_back get_allocation_size
program = tt

abbrev Positions : Type 0
Positions = ℕ → ℕ

abbrev position : Positions → ℕ → ℕ
position positions key = positions key

abbrev callback : ℕ → ℕ → Positions → Positions
callback old new positions key = if positions key == old then new else positions key

callback-Follows : Follows position callback
callback-Follows = record { moved = λ old new arg key. refl }

-- Keys 0, 1 and 2 have the items 10, 20 and 30.
abbrev three_items : UnorderedArray ℕ Positions
three_items = record {
  memory = 10 ∷ 20 ∷ 30 ∷ 0 ∷ [];
  item_size = 8;
  item_count = 3;
  pre_swap_item_callback = some callback;
  callback_arg = λ key. key;
}

three_items-IsValid : IsValid three_items
three_items-IsValid = record { in_places = omega arith; narrow = omega arith }

-- Item 30 moves to the front.
remove_run :
    remove three_items 0
    ≡ ok (record three_items {
      memory = 30 ∷ 20 ∷ 30 ∷ 0 ∷ [];
      item_count = 2;
      callback_arg = callback 2 0 (λ key. key);
    })
unfolding program
remove_run = refl

allocate_example :
    allocate three_items
    ≡ (if 3 == 4 then (none32, three_items) else (3, record three_items { item_count = 3 + 1 }))
allocate_example = allocate_lem three_items three_items-IsValid

remove-Swapped_example : Returns (remove three_items 0) (Swapped three_items 0)
remove-Swapped_example = remove-Swapped three_items 0 three_items-IsValid (omega arith)

remove-Follows_example : Returns (remove three_items 0) λ a'.
    (key : ℕ)
    → key < 3
    → key ≢ 0
    → (position a'.callback_arg key < a'.item_count)
      × (get_elem? a'.memory (position a'.callback_arg key) ≡ get_elem? three_items.memory key)
remove-Follows_example =
    remove-Follows position callback three_items 0 callback-Follows three_items-IsValid refl
      (omega arith)

-- Items of 12 bytes, one of two places taken.
abbrev wide_items : UnorderedArray (List ℕ) (Unit {0})
wide_items = record {
  memory = replicate 12 1 ∷ replicate 12 2 ∷ [];
  item_size = 12;
  item_count = 1;
  pre_swap_item_callback = none;
  callback_arg = tt;
}

wide_items-IsValid : IsValid wide_items
wide_items-IsValid = record { in_places = omega arith; narrow = omega arith }

-- The last 4 bytes of the item are lost.
push_back_run :
    push_back wide_items (replicate 12 7)
    ≡ ok (
      1,
      record wide_items {
        memory = replicate 12 1 ∷ (replicate 8 7 ++ replicate 4 2) ∷ [];
        item_count = 2;
      },
    )
unfolding program
push_back_run = refl

abbrev full_items : UnorderedArray (List ℕ) (Unit {0})
full_items = record wide_items { item_count = 2 }

full_items-IsValid : IsValid full_items
full_items-IsValid = record { in_places = omega arith; narrow = omega arith }

push_back-Pushed_example :
    Returns
      (push_back wide_items (replicate 12 7))
      λ (index, a'). Pushed wide_items (replicate 12 7) index a'
push_back-Pushed_example =
    push_back-Pushed wide_items (replicate 12 7) wide_items-IsValid (omega arith) (omega arith)
