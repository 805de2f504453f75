-- ===== src/RenderDevice/DataArray.antt =====
-- class DataArray of yengine/render_device/render_device_dx9.cpp: a pool of items, each with a flag
-- that tells whether its index is an id in use.
pub mod Table
pub mod Items
pub mod Allocation
pub mod Writes
pub mod Setup
mod Tests
pub mod Release
use yengine.Base.{
  ℕ, zero, suc, ◌+◌, ◌-◌, ◌%◌, Bool, true, false, not, ◌||◌, ◌&&◌, List, none, some, leb, ltb, ◌==◌,
  if◌then◌else◌, length, get_elem?, get_or, set, replicate, Run, ok, fault, out_of_range, ◌>>=◌,
  ◌>>◌, require, none32,
}
use yengine.Containers.AtomicMemPool
use yengine.Containers.AtomicMemPool.{
  Item, value, link, AtomicMemPool, num_items, allocate, remove, get_num_indexes_used,
}

pub record DataArray (A : Type 0) : Type 0 where
  pub pool : AtomicMemPool A
  pub used : List Bool

module _ {A : Type 0} where
  -- `used[id]`, false where the id is out of range; each caller tests the range first.
  abbrev pub is_used : DataArray A → ℕ → Bool
  is_used a id = ltb id (length a.used) && get_or a.used id false

  -- Init, of an array of items that hold whatever they hold.
  unfoldable pub init : ℕ → ℕ → ℕ → List (Item A) → Run (DataArray A)
  init buffer buffer_size item_size items = do
    pool ← AtomicMemPool.init buffer buffer_size item_size items
    ok (record { pool = pool; used = replicate (length items) false })

  -- (*this)[id], read: an item that was removed has lost its value.
  unfoldable pub get : DataArray A → ℕ → Run A
  get a id = elim (get_elem? a.pool.memory id) [
    | none ↦ fault out_of_range
    | some (link next) ↦ fault out_of_range
    | some (value x) ↦ ok x
  ]

  -- (*this)[id], written
  unfoldable pub put : DataArray A → ℕ → A → Run (DataArray A)
  put a id x = do
    require (ltb id (num_items a.pool)) out_of_range
    ok (record a { pool = record a.pool { memory = set a.pool.memory id (value x) } })

  -- AllocateID, where T_ID has `ids` values and Init of an item leaves `initial`.
  unfoldable pub allocate_id : ℕ → A → DataArray A → Run (ℕ × DataArray A)
  allocate_id ids initial a = do
    (index, pool) ← allocate a.pool
    ok (
      index % ids,
      if index == none32 then record a { pool = pool } else (record {
        pool = record pool { memory = set pool.memory index (value initial) };
        used = set a.used index true;
      }),
    )

  -- ReleaseID. `release` is Release of an item, with what else it changes.
  pub release_id :
      {D : Type 0} → (A → D → Run (A × D)) → DataArray A → ℕ → D → Run (Bool × DataArray A × D)
  release_id release a id d =
      if leb (length a.used) id || not (get_or a.used id false) then ok (false, a, d) else do
        x ← get a id
        (x', d') ← release x d
        a' ← put (record a { used = set a.used id false }) id x'
        pool ← remove a'.pool id
        ok (true, record a' { pool = pool }, d')

  -- The loop of Release from index `i` on, over as many items as are left.
  pub release_from :
      {D : Type 0} → (A → D → Run (A × D)) → ℕ → ℕ → DataArray A → D → Run (DataArray A × D)
  release_from release zero i a d = ok (a, d)
  release_from release (suc left) i a d = do
    (a', d') ←
        (if get_or a.used i false
          then (do x ← get a i; (x', d1) ← release x d; a1 ← put a i x'; ok (a1, d1))
          else ok (a, d))
    release_from release left (i + 1) a' d'

  pub release_all : {D : Type 0} → (A → D → Run (A × D)) → DataArray A → D → Run (DataArray A × D)
  release_all release a d = release_from release (get_num_indexes_used a.pool) 0 a d
