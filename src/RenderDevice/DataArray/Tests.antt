-- ===== src/RenderDevice/DataArray/Tests.antt =====
-- Runs of DataArray over three items, and its theorems at them.
use yengine.Base.{
  ℕ, ◌+◌, ◌<◌, ◌≡◌, refl, ◌≢◌, true, false, List, [], ◌∷◌, none, some, arith, ◌==◌, if◌then◌else◌,
  replicate, Run, ok, Returns, Returns-value,
}
use yengine.Headers.AtomicNumberMask.{get_cnt, get_num, construct_value, construct_next_value}
use yengine.Containers.AtomicMemPool
use yengine.Containers.AtomicMemPool.{Item, value, link, AtomicMemPool}
use yengine.RenderDevice.DataArray.{DataArray, is_used, init, get, put, allocate_id, release_id}
use yengine.RenderDevice.DataArray.Table.{view, IsTable}
use yengine.RenderDevice.DataArray.Setup.{unused, init-IsTable}
use yengine.RenderDevice.DataArray.Allocation.{allocate_id-view}
use yengine.RenderDevice.DataArray.Release.{release_id-view}

program : Unit {0}
unfolding get_cnt get_num construct_value construct_next_value AtomicMemPool.init AtomicMemPool.load
    AtomicMemPool.allocate AtomicMemPool.remove init get put allocate_id release_id
program = tt

abbrev items : List (Item ℕ)
items = replicate 3 (value 0)

abbrev fresh : DataArray ℕ
fresh = unused 64 4 items

fresh-run : init 64 12 4 items ≡ ok fresh
unfolding program
fresh-run = refl

fresh-IsTable : IsTable 256 fresh
fresh-IsTable = (init-IsTable 256 64 12 4 items fresh (omega arith) (omega arith) fresh-run).0

allocate_id-view_example : Returns (allocate_id 256 7 fresh) λ (id, a').
    IsTable 256 a'
    × (id ≢ 255 → view fresh id ≡ none)
    × (id ≢ 255 → (j : ℕ) → view a' j ≡ (if id == j then some 7 else view fresh j))
    × (id ≡ 255 → (j : ℕ) → (view a' j ≡ view fresh j) × (j < 3 → is_used fresh j ≡ true))
allocate_id-view_example = allocate_id-view 256 7 fresh fresh-IsTable refl

abbrev one_used : DataArray ℕ
one_used = record {
  pool = record fresh.pool { memory = value 7 ∷ value 0 ∷ value 0 ∷ []; used_indexes = 1 };
  used = true ∷ false ∷ false ∷ [];
}

one_used-run : allocate_id 256 7 fresh ≡ ok (0, one_used)
unfolding program
one_used-run = refl

one_used-IsTable : IsTable 256 one_used
one_used-IsTable =
    (Returns-value
      (λ (out : ℕ × DataArray ℕ).
        IsTable 256 out.1
        × (out.0 ≢ 255 → view fresh out.0 ≡ none)
        × (out.0 ≢ 255 → (j : ℕ) → view out.1 j ≡ (if out.0 == j then some 7 else view fresh j))
        × (out.0 ≡ 255
            → (j : ℕ) → (view out.1 j ≡ view fresh j) × (j < 3 → is_used fresh j ≡ true)))
      allocate_id-view_example one_used-run).0

-- Release of an item that counts the releases.
abbrev count_release : ℕ → ℕ → Run (ℕ × ℕ)
count_release x count = ok (0, count + 1)

release_id-view_example : Returns (release_id count_release one_used 0 5) λ (done, a', d'').
    (done ≡ true)
    × (d'' ≡ 6)
    × IsTable 256 a'
    × ((j : ℕ) → view a' j ≡ (if 0 == j then none else view one_used j))
release_id-view_example =
    release_id-view count_release 256 one_used 0 5 6 7 0 one_used-IsTable refl refl
