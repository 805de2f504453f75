-- ===== src/Containers/AtomicQueue/Refine.antt =====
-- An AtomicQueue that one thread at a time uses is a queue of at most mNumItems items.
use yengine.Base.{
  ℕ, ◌+◌, ◌*◌, ◌%◌, ◌≤◌, ◌<◌, ◌≡◌, refl, sym, ap, ◌∙◌, ◌≢◌, ◌⊎◌, Bool, true, false, List, [], ◌∷◌,
  ◌++◌, Option, none, some, arith, length, set, length-set, length-append, ◌==◌, eq→==, ne→==,
  if◌then◌else◌, ℕ_discrete, ok, Returns,
}
use yengine.Containers.AtomicQueue.Positions.{
  encode, Fits, next_lap, next_slot, get_num-encode, place_of, encode_inj, advance-encode,
  offset_inj,
}
use yengine.Containers.AtomicQueue.Window.{Holds, next_slot-lt, set-Holds}
use yengine.Containers.AtomicQueue.{
  AtomicQueue, num_items, advance, place, is_full, write_item, enqueue,
}
use yengine.Headers.AtomicNumberMask.{get_num}

module _ {ℓ} {A : Type ℓ} where
  -- What a bounded queue answers.
  unfoldable pub offer : ℕ → List A → A → Bool × List A
  offer places items x = if length items == places then (false, items) else (true, items ++ x ∷ [])

  unfoldable pub poll : List A → Option A × List A
  poll [] = (none, [])
  poll (x ∷ items) = (some x, items)

  -- The queue holds these items, the oldest first.
  pub record Refines (q : AtomicQueue A) (items : List A) : Type ℓ where
    pub lap : ℕ
    pub slot : ℕ
    pub end_lap : ℕ
    pub end : ℕ
    pub fits : Fits q.item_size (num_items q)
    pub head_at : q.head ≡ encode q.item_size lap slot
    pub tail_at : q.tail ≡ encode q.item_size end_lap end
    pub slot_in : slot < num_items q
    pub end_in : end < num_items q
    pub on :
        ((slot + length items ≡ end) × (end_lap ≡ lap))
        ⊎ ((slot + length items ≡ end + num_items q) × (end_lap ≡ lap + 1))
    pub few : length items ≤ num_items q
    pub holds : Holds q.memory slot items

  module _ (q : AtomicQueue A) (items : List A) (r : Refines q items) where
    pub head_num : get_num q.head ≡ q.item_size * r.slot
    head_num = rw r.head_at (get_num-encode q.item_size (num_items q) r.fits r.lap r.slot r.slot_in)

    pub tail_num : get_num q.tail ≡ q.item_size * r.end
    tail_num =
        rw r.tail_at (get_num-encode q.item_size (num_items q) r.fits r.end_lap r.end r.end_in)

    same_value : q.head ≡ q.tail → (r.lap % 256 ≡ r.end_lap % 256) × (r.slot ≡ r.end)
    same_value e =
        encode_inj q.item_size (num_items q) r.fits r.lap r.slot r.end_lap r.end r.slot_in r.end_in
          (sym r.head_at ∙ e ∙ r.tail_at)

    -- The values are equal exactly if the queue is empty.
    pub empty_test : (q.head == q.tail) ≡ (length items == 0)
    empty_test = elim (ℕ_discrete (length items) 0) [
      | yes e ↦
          let slots : r.slot ≡ r.end = ground (arith, r.on, r.slot_in, r.end_in, e) in
          let laps : r.lap ≡ r.end_lap = ground (arith, r.on, r.slot_in, r.end_in, e) in
          let same : q.head ≡ q.tail = ground (arith, r.head_at, r.tail_at, slots, laps) in
          ground (arith, same, e)
      | no ne ↦
          let apart : q.head ≢ q.tail = λ e. ground (arith, same_value e, r.on, r.few, ne) in
          ground (arith, apart, ne)
    ]

    -- The numbers are equal and the values are not exactly if every place is taken.
    pub full_test : is_full q.head q.tail ≡ (length items == num_items q)
    full_test = elim (ℕ_discrete (length items) (num_items q)) [
      | yes e ↦
          let slots : r.slot ≡ r.end = ground (arith, r.on, r.slot_in, r.end_in, e) in
          let laps : r.end_lap ≡ r.lap + 1 = ground (arith, r.on, r.slot_in, r.end_in, e) in
          let apart : q.head ≢ q.tail = λ same. omega (arith, (same_value same).0, laps) in
          let nums : get_num q.head ≡ get_num q.tail = ground (arith, head_num, tail_num, slots) in
          ground (arith, nums, apart, e)
      | no ne ↦ elim (ℕ_discrete (get_num q.head) (get_num q.tail)) [
        | yes nums ↦
            let slots : r.slot ≡ r.end =
              offset_inj q.item_size (num_items q) r.fits r.slot r.end
                (sym head_num ∙ nums ∙ tail_num) in
            let none_held : length items ≡ 0 = ground (arith, r.on, r.few, slots, ne) in
            ground (arith, empty_test, none_held, ne)
        | no apart ↦ ground (arith, apart, ne)
      ]
    ]

  -- A write at the place of the tail.
  write_item-ok :
      (q : AtomicQueue A) (items : List A) (r : Refines q items) (x : A)
      → write_item q (get_num q.tail) x ≡ ok (record q { memory = set q.memory r.end x })
  unfolding write_item
  write_item-ok q items r x =
      let at : place q (get_num q.tail) ≡ r.end =
        rw (tail_num q items r) (place_of q.item_size (num_items q) r.fits r.end) in
      ground (arith, at, r.end_in)

  enqueued-Refines :
      (q : AtomicQueue A) (items : List A) (r : Refines q items) (x : A)
      → length items ≢ num_items q
      → Refines
          (record q { memory = set q.memory r.end x; tail = advance q q.tail })
          (items ++ x ∷ [])
  enqueued-Refines q items r x room =
      let places = length-set q.memory r.end x in
      record {
        lap = r.lap;
        slot = r.slot;
        end_lap = next_lap (num_items q) r.end_lap r.end;
        end = next_slot (num_items q) r.end;
        fits = rw length-set r.fits;
        head_at = r.head_at;
        tail_at =
            ap (advance q) r.tail_at
            ∙ advance-encode q.item_size (num_items q) r.fits q r.end_lap r.end refl refl r.end_in;
        slot_in = rw length-set r.slot_in;
        end_in = rw length-set (next_slot-lt (num_items q) r.end r.end_in);
        on = rw (length-set, length-append) (ground (arith, r.on, r.end_in, r.slot_in, r.few));
        few = rw (length-set, length-append) (omega (arith, r.few));
        holds =
            set-Holds q.memory r.slot r.end x items r.slot_in r.end_in (omega (arith, r.few))
              (ground (arith, r.on)) r.holds;
      }

  -- For a queue that refines a list of items, Enqueue returns what the bounded queue answers and
  -- leaves a queue that refines what the bounded queue then holds.
  pub enqueue-Refines :
      (q : AtomicQueue A) (items : List A) (x : A)
      → Refines q items
      → Returns (enqueue q x) λ (done, q').
        (done ≡ (offer (num_items q) items x).0) × Refines q' (offer (num_items q) items x).1
  unfolding enqueue offer
  enqueue-Refines q items x r = elim (ℕ_discrete (length items) (num_items q)) [
    | yes full ↦
        ((false, q), ground (arith, full_test q items r, full), rw (eq→== _ _ full) (refl, r))
    | no room ↦ (
      (true, record q { memory = set q.memory r.end x; tail = advance q q.tail }),
      ground (arith, full_test q items r, room, write_item-ok q items r x),
      rw (ne→== _ _ room) (refl, enqueued-Refines q items r x room),
    )
  ]
