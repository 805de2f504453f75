-- ===== src/Containers/MemPool/Setup.antt =====
-- Init of MemPool, and GetIndex of the address of an item.
use native.Mathlib.Nat.{mul-mod_left, mul-div_cancel}
use yengine.Base.{
  ℕ, ◌+◌, ◌-◌, ◌*◌, ◌/◌, ◌%◌, ◌^◌, ◌≤◌, ◌<◌, ◌≡◌, refl, List, [], arith, ok, length, get_or, none32,
}
use yengine.Containers.MemPool.Indexes.{Indexes}
use yengine.Containers.MemPool.Invariant.{Refines}
use yengine.Containers.MemPool.{MemPool, init, clear, get_index}

abbrev pub all_free : ℕ → Indexes
all_free total = record { free = []; used = 0; total = total }

-- A successful Init over items that have the size it is told, at least four bytes, leaves a pool
-- that refines the allocator of which nothing is handed out.
pub init-Refines :
    (buffer buffer_size item_size : ℕ) (items : List (List ℕ)) {p : MemPool}
    → length items ≤ none32
    → 4 ≤ item_size
    → ((i : ℕ) → i < length items → 4 * length (get_or items i []) ≡ item_size)
    → init buffer buffer_size item_size items ≡ ok p
    → Refines p (all_free (length items))
unfolding init
init-Refines buffer buffer_size item_size items few room sized e = record {
  chain = ground (arith, e);
  below = tt;
  distinct = tt;
  used = ground (arith, e);
  total = ground (arith, e);
  in_total = omega arith;
  word = few;
  sized = λ i h. ground (arith, e, sized i);
  room = ground (arith, e);
}

-- Clear takes every index back.
pub clear-Refines : (p : MemPool) (s : Indexes) → Refines p s → Refines (clear p) (all_free s.total)
unfolding clear
clear-Refines p s r = record {
  chain = refl;
  below = tt;
  distinct = tt;
  used = refl;
  total = r.total;
  in_total = omega arith;
  word = r.word;
  sized = r.sized;
  room = r.room;
}

-- For a pool that refines an allocator of indexes, GetIndex of the address of an item below the
-- used indexes is the index of the item.
pub get_index-address :
    (p : MemPool) (s : Indexes) (i : ℕ)
    → Refines p s
    → i < s.used
    → get_index p (p.buffer + i * p.item_size) ≡ ok i
unfolding get_index
get_index-address p s i r lt =
    let offset : p.buffer + i * p.item_size - p.buffer ≡ i * p.item_size = omega arith in
    let aligned : (i * p.item_size) % p.item_size ≡ 0 = mul-mod_left i p.item_size in
    let index : (i * p.item_size) / p.item_size ≡ i = mul-div_cancel i (omega (arith, r.room)) in
    let small : i < 2 ^ 32 = omega (arith, r.in_total, r.word) in
    ground (arith, offset, aligned, index, r.room, r.used, small)
