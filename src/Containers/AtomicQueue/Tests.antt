-- ===== src/Containers/AtomicQueue/Tests.antt =====
-- AtomicQueue over three places of eight bytes.
use yengine.Base.{List, ℕ, ◌+◌, ◌^◌, ◌≡◌, refl, inr, true, false, [], ◌∷◌, some, arith, ok, Returns}
use yengine.Containers.AtomicQueue.Positions.{Fits}
use yengine.Containers.AtomicQueue.Refine.{offer, poll, Refines, enqueue-Refines}
use yengine.Containers.AtomicQueue.Consume.{dequeue-Refines}
use yengine.Containers.AtomicQueue.{
  AtomicQueue, num_items, initialize, write_item, read_item, enqueue, compare_and_set_head,
  dequeue_read, dequeue, current_size,
}
use yengine.Headers.AtomicNumberMask.{get_cnt, get_num, construct_value, construct_next_value}

program : Unit {0}
unfolding initialize write_item read_item enqueue compare_and_set_head dequeue_read dequeue
    current_size get_cnt get_num construct_value construct_next_value offer poll
program = tt

-- The last two of three places are taken, and the tail is in the next lap.
abbrev wrapped : AtomicQueue ℕ
wrapped = record { memory = 10 ∷ 20 ∷ 30 ∷ []; item_size = 8; head = 8; tail = 2 ^ 56 }

abbrev filled : AtomicQueue ℕ
filled = record { memory = 40 ∷ 20 ∷ 30 ∷ []; item_size = 8; head = 8; tail = 2 ^ 56 + 8 }

abbrev two_items : List ℕ
two_items = 20 ∷ 30 ∷ []

abbrev three_items : List ℕ
three_items = 20 ∷ 30 ∷ 40 ∷ []

three_places : Fits 8 3
three_places = record { sized = omega arith; some_places = omega arith; narrow = omega arith }

wrapped-Refines : Refines wrapped two_items
unfolding program
wrapped-Refines = record {
  lap = 0;
  slot = 1;
  end_lap = 1;
  end = 0;
  fits = three_places;
  head_at = refl;
  tail_at = refl;
  slot_in = omega arith;
  end_in = omega arith;
  on = inr (refl, refl);
  few = omega arith;
  holds = (refl, (refl, tt));
}

filled-Refines : Refines filled three_items
unfolding program
filled-Refines = record {
  lap = 0;
  slot = 1;
  end_lap = 1;
  end = 1;
  fits = three_places;
  head_at = refl;
  tail_at = refl;
  slot_in = omega arith;
  end_in = omega arith;
  on = inr (refl, refl);
  few = omega arith;
  holds = (refl, (refl, (refl, tt)));
}

enqueue_run : enqueue wrapped 40 ≡ ok (true, filled)
unfolding program
enqueue_run = refl

enqueue_full : enqueue filled 50 ≡ ok (false, filled)
unfolding program
enqueue_full = refl

dequeue_run : dequeue filled ≡ ok (some 20, record filled { head = 16 })
unfolding program
dequeue_run = refl

enqueue-Refines_example : Returns (enqueue wrapped 40) λ (done, q).
    (done ≡ (offer (num_items wrapped) two_items 40).0)
    × Refines q (offer (num_items wrapped) two_items 40).1
enqueue-Refines_example = enqueue-Refines wrapped two_items 40 wrapped-Refines

dequeue-Refines_example :
    Returns
      (dequeue filled)
      λ (item, q). (item ≡ (poll three_items).0) × Refines q (poll three_items).1
dequeue-Refines_example = dequeue-Refines filled three_items filled-Refines

abbrev fresh : AtomicQueue ℕ
fresh = record { memory = 0 ∷ 0 ∷ 0 ∷ []; item_size = 8; head = 0; tail = 0 }

initialize_run : initialize 24 8 fresh.memory ≡ ok fresh
unfolding program
initialize_run = refl
