-- ===== src/Renderer/IndexBuffer.antt =====
-- class IndexBuffer of yengine/renderer/vertex_buffer.h and vertex_buffer.cpp.
use yengine.Base.{
  ℕ, ◌*◌, Bool, true, false, not, ◌||◌, List, [], ◌∷◌, leb, ◌==◌, if◌then◌else◌, length, Run, ok,
  ◌>>=◌, ◌>>◌, assert, add32, word32,
}
use yengine.RenderDevice.Dx9.{
  UsageType, usage_invalid, usage_immutable, usage_static, usage_dynamic, usage_system,
}
use yengine.Renderer.RenderDeviceState
use yengine.Renderer.RenderDeviceState.{RenderDeviceState, Slot}
use yengine.Renderer.Resources.{Resources, select, store_id, clear_ids}

-- The number of an enum, to compare it
abbrev pub usage_number : UsageType → ℕ
usage_number usage_invalid = 0
usage_number usage_immutable = 1
usage_number usage_static = 2
usage_number usage_dynamic = 3
usage_number usage_system = 4

pub record IndexBuffer : Type 0 where
  pub dirty : Bool
  pub active_index : Bool
  pub usage_type : UsageType
  pub total_count : ℕ
  pub fill_count : ℕ
  pub index_buffer_ids : ℕ × ℕ

-- IndexBuffer()
pub construct : ℕ → IndexBuffer
construct none_id = record {
  dirty = false;
  active_index = false;
  usage_type = usage_invalid;
  total_count = 0;
  fill_count = 0;
  index_buffer_ids = (none_id, none_id);
}

pub initialize : UsageType → ℕ → IndexBuffer → IndexBuffer
initialize usage count b =
    if not (usage_number b.usage_type == usage_number usage) || not (b.total_count == count)
    then record b { usage_type = usage; total_count = count; dirty = true }
    else b

-- An array of the 16-bit numbers to fill, with what is added to each.
pub record IndexArray : Type 0 where
  pub data_of : List ℕ
  pub index_offset : ℕ

-- The loop that adds up the counts
pub sum_counts : List IndexArray → ℕ → ℕ
sum_counts [] total = total
sum_counts (array ∷ arrays) total = sum_counts arrays (add32 total (length array.data_of))

-- What CreateIndexBuffer takes is the usage and the count. `fill_device` is FillIndexBuffer: an id, the
-- count, the data with its size in bytes, what is added to each index, and the place of the first.
module _ {D : Type 0} (device : Resources (UsageType × ℕ) D)
    (fill_device : ℕ → ℕ → List ℕ → ℕ → ℕ → ℕ → D → Run D) where
  open device use {none_id, create}

  -- The ids are released and forgotten.
  unfoldable pub release : IndexBuffer → D → Run (IndexBuffer × D)
  release b d = do
    (ids, d') ← clear_ids device b.index_buffer_ids d
    ok (record b { index_buffer_ids = ids; dirty = false }, d')

  -- The loop over the arrays, from an offset on
  pub fill_arrays : ℕ → List IndexArray → ℕ → D → Run D
  fill_arrays id [] current_offset d = ok d
  fill_arrays id (array ∷ arrays) current_offset d = do
    let count = length array.data_of
    d' ← fill_device id count array.data_of (word32 (2 * count)) array.index_offset current_offset d
    fill_arrays id arrays (add32 current_offset count) d'

  pub fill_multi : List IndexArray → IndexBuffer → D → Run (IndexBuffer × D)
  fill_multi arrays b d = do
    assert (not (usage_number b.usage_type == 0))
    let fill_count = sum_counts arrays 0
    assert (leb fill_count b.total_count)
    let b1 = record b { fill_count = fill_count }
    (b2, d2) ← (if b1.dirty then release b1 d else ok (b1, d))
    let index = not b2.active_index
    (ids, d3) ←
        (if select index b2.index_buffer_ids == none_id
          then (do
            (id, d') ← create (b2.usage_type, b2.total_count) d2
            ok (store_id index id b2.index_buffer_ids, d'))
          else ok (b2.index_buffer_ids, d2))
    d4 ← fill_arrays (select index ids) arrays 0 d3
    ok (record b2 { active_index = index; index_buffer_ids = ids }, d4)

  pub fill : List ℕ → IndexBuffer → D → Run (IndexBuffer × D)
  fill data_of = fill_multi (record { data_of = data_of; index_offset = 0 } ∷ [])

  pub activate :
      (Slot → ℕ → D → Run D) → IndexBuffer → RenderDeviceState → D → Run (RenderDeviceState × D)
  activate tell b s d = do
    let id = select b.active_index b.index_buffer_ids
    assert (not (id == none_id))
    RenderDeviceState.activate_index_stream tell s d id
