-- ===== src/Containers/UnorderedArray/Refine.antt =====
-- Which items an UnorderedArray holds after an operation, and where.
use yengine.Base.{
  ℕ, ◌+◌, ◌-◌, ◌^◌, ◌≤◌, ◌<◌, ◌≡◌, refl, sym, ◌≢◌, List, some, arith, length, get_elem?, set,
  length-set, get_elem?-set, ◌==◌, eq→==, ne→==, lt→ltb, not_lt→ltb, if◌then◌else◌, ℕ_discrete, ok,
  Returns, sub32, add32, none32, get_elem?-some,
}
use yengine.Containers.UnorderedArray.{
  UnorderedArray, total_size, allocate, remove, notify, copy_item,
}

-- The callback is told of every move: the key of an item leads to its new index.
pub record Follows {κ ι} {S : Type κ} {K : Type ι} (position : S → K → ℕ) (callback : ℕ → ℕ → S → S)
    : Type (κ ⊔ ι) where
  pub moved :
      (old new : ℕ) (arg : S) (key : K)
      → position (callback old new arg) key
        ≡ (if position arg key == old then new else position arg key)

module _ {ℓ} {A : Type ℓ} where
  copy_item-ok :
      (memory : List A) (index from : ℕ) (x : A)
      → get_elem? memory from ≡ some x
      → index < length memory
      → copy_item memory index from ≡ ok (set memory index x)
  unfolding copy_item
  copy_item-ok memory index from x at h = rw (copy_item, at, lt→ltb _ _ h) refl

module _ {ℓ} {A : Type ℓ} where
  set_item :
      (memory : List A) (index i last : ℕ) (x : A)
      → index < length memory
      → get_elem? memory last ≡ some x
      → get_elem? (set memory index x) i ≡ get_elem? memory (if i == index then last else i)
  set_item memory index i last x h at = elim (ℕ_discrete i index) [
    | yes e ↦ rw (get_elem?-set memory index i x h, eq→== i index e, eq→== index i (sym e)) (sym at)
    | no ne ↦
        rw (get_elem?-set memory index i x h, ne→== i index ne, ne→== index i (λ e. ne (sym e)))
          refl
  ]

module _ {ℓ κ} {A : Type ℓ} {S : Type κ} where
  pub record IsValid (a : UnorderedArray A S) : Type 0 where
    pub in_places : a.item_count ≤ total_size a
    pub narrow : total_size a < 2 ^ 32

  -- Allocate takes the next place, and answers -1 exactly if every place is taken.
  pub allocate_lem :
      (a : UnorderedArray A S)
      → IsValid a
      → allocate a ≡ (
          if a.item_count == total_size a
          then (none32, a)
          else (a.item_count, record a { item_count = a.item_count + 1 }))
  unfolding allocate
  allocate_lem a v =
      let next : a.item_count < total_size a → add32 a.item_count 1 ≡ a.item_count + 1 =
        λ h. omega (arith, v.narrow) in
      elim (ℕ_discrete a.item_count (total_size a)) [
        | yes e ↦ rw (eq→== _ _ e, not_lt→ltb a.item_count (total_size a) (omega arith)) refl
        | no ne ↦
            let h : a.item_count < total_size a = omega (arith, v.in_places) in
            rw (ne→== _ _ ne, lt→ltb _ _ h, next h) refl
      ]

  -- What Remove of an index leaves: the other items, where only the last one has moved, to the index.
  pub record Swapped (a : UnorderedArray A S) (index : ℕ) (a' : UnorderedArray A S)
      : Type (ℓ ⊔ κ) where
    pub valid : IsValid a'
    pub count : a'.item_count + 1 ≡ a.item_count
    pub places : total_size a' ≡ total_size a
    pub item :
        (i : ℕ)
        → i < a'.item_count
        → get_elem? a'.memory i ≡ get_elem? a.memory (if i == index then a'.item_count else i)
    pub told :
        a'.callback_arg
        ≡ (if index == a'.item_count then a.callback_arg else notify a a'.item_count index)
    pub same_callback : a'.pre_swap_item_callback ≡ a.pre_swap_item_callback

  remove_last :
      (a : UnorderedArray A S) (index : ℕ)
      → index < a.item_count
      → index ≡ sub32 a.item_count 1
      → remove a index ≡ ok (record a { item_count = sub32 a.item_count 1 })
  unfolding remove
  remove_last a index h e = rw (lt→ltb _ _ h, eq→== _ _ e) refl

  remove_moved :
      (a : UnorderedArray A S) (index : ℕ) (x : A)
      → index < a.item_count
      → index < length a.memory
      → index ≢ sub32 a.item_count 1
      → get_elem? a.memory (sub32 a.item_count 1) ≡ some x
      → remove a index
        ≡ ok (record a {
          memory = set a.memory index x;
          item_count = sub32 a.item_count 1;
          callback_arg = notify a (sub32 a.item_count 1) index;
        })
  unfolding remove
  remove_moved a index x h l ne at =
      let copied = copy_item-ok a.memory index (sub32 a.item_count 1) x at l in
      rw (lt→ltb _ _ h, ne→== _ _ ne, copied) refl

  -- In a valid array, Remove of the index of an item returns, and leaves a valid array of the other
  -- items, where only the last one has moved, to the index, and the callback was told of exactly
  -- that move.
  pub remove-Swapped :
      (a : UnorderedArray A S) (index : ℕ)
      → IsValid a
      → index < a.item_count
      → Returns (remove a index) (Swapped a index)
  remove-Swapped a index v h =
      let last : sub32 a.item_count 1 ≡ a.item_count - 1 = omega (arith, v.in_places, v.narrow) in
      let l : index < total_size a = omega (arith, v.in_places) in
      let (x, at) =
        get_elem?-some a.memory (sub32 a.item_count 1) (omega (arith, v.in_places, last)) in
      elim (ℕ_discrete index (sub32 a.item_count 1)) [
        | yes e ↦ (
          record a { item_count = sub32 a.item_count 1 },
          remove_last a index h e,
          record {
            valid = record { in_places = omega (arith, v.in_places, last); narrow = v.narrow };
            count = omega (arith, last);
            places = refl;
            item = λ i k. rw (ne→== i index (omega arith)) refl;
            told = rw (eq→== _ _ e) refl;
            same_callback = refl;
          },
        )
        | no ne ↦ (
          record a {
            memory = set a.memory index x;
            item_count = sub32 a.item_count 1;
            callback_arg = notify a (sub32 a.item_count 1) index;
          },
          remove_moved a index x h l ne at,
          record {
            valid = record {
              in_places = rw length-set (omega (arith, v.in_places, last));
              narrow = rw length-set v.narrow;
            };
            count = omega (arith, last);
            places = length-set a.memory index x;
            item = λ i k. set_item a.memory index i (sub32 a.item_count 1) x l at;
            told = rw (ne→== _ _ ne) refl;
            same_callback = refl;
          },
        )
      ]
