-- ===== src/Containers/AtomicQueue/Consume.antt =====
-- Dequeue, CurrentSize and Initialize of AtomicQueue.
use yengine.Base.{
  ℕ, ◌+◌, ◌-◌, ◌*◌, ◌/◌, ◌<◌, ◌≡◌, refl, sym, subst, ap, ◌∙◌, inl, inr, List, [], ◌∷◌, none, some,
  arith, length, ◌==◌, if◌then◌else◌, ℕ_discrete, ok, Returns, mul64, add64,
}
use native.Mathlib.Nat.{mul-div_cancel_left}
use yengine.Containers.AtomicQueue.Positions.{
  Fits, next_lap, next_slot, place_of, advance-encode, offset-le,
}
use yengine.Containers.AtomicQueue.Refine.{poll, Refines, head_num, tail_num, empty_test}
use yengine.Containers.AtomicQueue.Window.{next_slot-lt}
use yengine.Containers.AtomicQueue.{
  AtomicQueue, num_items, initialize, advance, place, read_item, compare_and_set_head, dequeue_read,
  dequeue, current_size,
}
use yengine.Headers.AtomicNumberMask.{get_num, construct_value}

-- The distance of two places, in bytes, is so many items.
distance : (size a n : ℕ) → 0 < size → (size * (a + n) - size * a) / size ≡ n
distance size a n h =
    let bytes : size * (a + n) - size * a ≡ size * n = omega arith in
    rw bytes (mul-div_cancel_left n h)

-- The same over the end of the buffer.
distance_round :
    (size slot count end places : ℕ)
    → Fits size places
    → slot < places
    → end < places
    → slot + count ≡ end + places
    → (add64 (size * end) (mul64 size places) - size * slot) / size ≡ count
distance_round size slot count end places f h k on =
    let last = offset-le size places f end k in
    let total : add64 (size * end) (mul64 size places) ≡ size * (slot + count) =
      rw on (omega (arith, f.narrow, last)) in
    rw total (distance size slot count f.sized)

module _ {ℓ} {A : Type ℓ} where
  read_item-ok :
      (q : AtomicQueue A) (x : A) (items : List A) (r : Refines q (x ∷ items))
      → read_item q (get_num q.head) ≡ ok x
  unfolding read_item
  read_item-ok q x items r =
      let at : place q (get_num q.head) ≡ r.slot =
        rw (head_num q (x ∷ items) r) (place_of q.item_size (num_items q) r.fits r.slot) in
      ground (arith, at, r.holds.0)

  dequeued-Refines :
      (q : AtomicQueue A) (x : A) (items : List A) (r : Refines q (x ∷ items))
      → Refines (record q { head = advance q q.head }) items
  dequeued-Refines q x items r = record {
    lap = next_lap (num_items q) r.lap r.slot;
    slot = next_slot (num_items q) r.slot;
    end_lap = r.end_lap;
    end = r.end;
    fits = r.fits;
    head_at =
        ap (advance q) r.head_at
        ∙ advance-encode q.item_size (num_items q) r.fits q r.lap r.slot refl refl r.slot_in;
    tail_at = r.tail_at;
    slot_in = next_slot-lt (num_items q) r.slot r.slot_in;
    end_in = r.end_in;
    on = ground (arith, r.on, r.end_in, r.slot_in);
    few = omega (arith, r.few);
    holds = r.holds.1;
  }

  -- For a queue that refines a list of items, Dequeue returns what the bounded queue answers and
  -- leaves a queue that refines what the bounded queue then holds.
  pub dequeue-Refines :
      (q : AtomicQueue A) (items : List A)
      → Refines q items
      → Returns (dequeue q) λ (item, q'). (item ≡ (poll items).0) × Refines q' (poll items).1
  unfolding dequeue dequeue_read compare_and_set_head poll
  dequeue-Refines q [] r = ((none, q), ground (arith, empty_test q [] r), (refl, r))
  dequeue-Refines q (x ∷ items) r = (
    (some x, record q { head = advance q q.head }),
    ground (arith, empty_test q (x ∷ items) r, read_item-ok q x items r),
    (refl, dequeued-Refines q x items r),
  )

  -- A successful Initialize over at least one place, within the limits of the 56-bit offsets,
  -- leaves a queue without an item.
  pub initialize-Refines :
      (buffer_size item_size : ℕ) (places : List A) {q : AtomicQueue A}
      → Fits item_size (length places)
      → initialize buffer_size item_size places ≡ ok q
      → Refines q []
  unfolding initialize construct_value
  initialize-Refines buffer_size item_size places {q} f e =
      let start : q ≡ record { memory = places; item_size = item_size; head = 0; tail = 0 } =
        ground (arith, e) in
      subst (λ q. Refines q []) (sym start)
        (record {
          lap = 0;
          slot = 0;
          end_lap = 0;
          end = 0;
          fits = f;
          head_at = omega arith;
          tail_at = omega arith;
          slot_in = f.some_places;
          end_in = f.some_places;
          on = inl (refl, refl);
          few = omega arith;
          holds = tt;
        })

  -- For a queue that refines a list of items, CurrentSize returns the number of items, but the size
  -- of an item in bytes where every place is taken.
  pub current_size_lem :
      (q : AtomicQueue A) (items : List A)
      → Refines q items
      → current_size q ≡ ok (if length items == num_items q then q.item_size else length items)
  unfolding current_size
  current_size_lem q items r =
      let head = head_num q items r in
      let tail = tail_num q items r in
      let empty = empty_test q items r in
      let sized = r.fits.sized in
      elim (ℕ_discrete r.slot r.end) [
        | yes same ↦ ground (arith, head, tail, empty, same, r.on, sized, r.fits.some_places)
        | no apart ↦ elim r.on [
          | inl (on, _) ↦
              let size : (q.item_size * r.end - q.item_size * r.slot) / q.item_size ≡ length items =
                rw (sym on) (distance q.item_size r.slot (length items) sized) in
              let order : q.item_size * r.slot < q.item_size * r.end =
                grind (arith, sized, on, apart) in
              ground (arith, head, tail, sized, size, order, on, r.end_in)
          | inr (on, _) ↦
              let size =
                distance_round q.item_size r.slot (length items) r.end (num_items q) r.fits
                  r.slot_in r.end_in on in
              let order : q.item_size * r.end < q.item_size * r.slot =
                grind (arith, sized, on, apart, r.few) in
              ground (arith, head, tail, sized, size, order, on, apart)
        ]
      ]
