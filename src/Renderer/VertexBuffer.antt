-- ===== src/Renderer/VertexBuffer.antt =====
-- class VertexBuffer of yengine/renderer/vertex_buffer.h and vertex_buffer.cpp.
use yengine.Base.{
  ℕ, ◌*◌, ◌/◌, ◌%◌, Bool, true, false, not, ◌||◌, List, [], ◌∷◌, ltb, leb, ◌==◌, if◌then◌else◌, Run,
  ok, ◌>>=◌, ◌>>◌, assert, add32, word32,
}
use yengine.RenderDevice.Dx9.{UsageType, usage_invalid}
use yengine.Renderer.IndexBuffer.{usage_number}
use yengine.Renderer.RenderDeviceState
use yengine.Renderer.RenderDeviceState.{RenderDeviceState, Slot}
use yengine.Renderer.Resources.{Resources, select, store_id, clear_ids}

pub record VertexBuffer : Type 0 where
  pub dirty : Bool
  pub active_index : Bool
  pub usage_type : UsageType
  pub stride : ℕ
  pub total_size : ℕ
  pub fill_size : ℕ
  pub vertex_buffer_ids : ℕ × ℕ

-- VertexBuffer()
pub construct : ℕ → VertexBuffer
construct none_id = record {
  dirty = false;
  active_index = false;
  usage_type = usage_invalid;
  stride = 1;
  total_size = 0;
  fill_size = 0;
  vertex_buffer_ids = (none_id, none_id);
}

pub initialize : UsageType → ℕ → ℕ → VertexBuffer → Run VertexBuffer
initialize usage stride count b = do
  assert (ltb 0 stride)
  let total_size = word32 (stride * count)
  ok (
      if not (usage_number b.usage_type == usage_number usage)
        || (not (b.stride == stride) || not (b.total_size == total_size))
      then record b { usage_type = usage; stride = stride; total_size = total_size; dirty = true }
      else b)

-- An array to fill: its data, and its data_size, which counts items of the stride of the call.
pub record DataBlock : Type 0 where
  pub data_of : List ℕ
  pub data_size : ℕ

-- The loop that adds up the sizes
pub sum_sizes : ℕ → List DataBlock → ℕ → ℕ
sum_sizes data_stride [] total = total
sum_sizes data_stride (array ∷ arrays) total =
    sum_sizes data_stride arrays (add32 total (array.data_size * data_stride))

-- What CreateVertexBuffer takes is the usage, the stride and the count. `fill_device` is FillVertexBuffer:
-- an id, the count, the data with its size, and the place of the first.
module _ {D : Type 0} (device : Resources (UsageType × ℕ × ℕ) D)
    (fill_device : ℕ → ℕ → List ℕ → ℕ → ℕ → D → Run D) where
  open device use {none_id, create}

  -- The ids are released and forgotten.
  unfoldable pub release : VertexBuffer → D → Run (VertexBuffer × D)
  release b d = do
    (ids, d') ← clear_ids device b.vertex_buffer_ids d
    ok (record b { vertex_buffer_ids = ids; dirty = false }, d')

  -- The loop over the arrays, from an offset on; the stride is not 0 after Initialize.
  pub fill_arrays : ℕ → ℕ → ℕ → List DataBlock → ℕ → D → Run D
  fill_arrays id stride data_stride [] current_offset d = ok d
  fill_arrays id stride data_stride (array ∷ arrays) current_offset d = do
    let data_size = word32 (array.data_size * data_stride)
    assert (data_size % stride == 0)
    let count = data_size / stride
    d' ← fill_device id count array.data_of data_size current_offset d
    fill_arrays id stride data_stride arrays (add32 current_offset count) d'

  pub fill_multi : ℕ → List DataBlock → VertexBuffer → D → Run (VertexBuffer × D)
  fill_multi data_stride arrays b d = do
    assert (not (usage_number b.usage_type == 0))
    let fill_size = sum_sizes data_stride arrays 0
    assert (leb fill_size b.total_size)
    let b1 = record b { fill_size = fill_size }
    (b2, d2) ← (if b1.dirty then release b1 d else ok (b1, d))
    let index = not b2.active_index
    (ids, d3) ←
        (if select index b2.vertex_buffer_ids == none_id
          then (do
            (id, d') ← create (b2.usage_type, b2.stride, b2.total_size / b2.stride) d2
            ok (store_id index id b2.vertex_buffer_ids, d'))
          else ok (b2.vertex_buffer_ids, d2))
    d4 ← fill_arrays (select index ids) b2.stride data_stride arrays 0 d3
    ok (record b2 { active_index = index; vertex_buffer_ids = ids }, d4)

  pub fill : List ℕ → ℕ → VertexBuffer → D → Run (VertexBuffer × D)
  fill data_of data_size = fill_multi 1 (record { data_of = data_of; data_size = data_size } ∷ [])

  -- The arrays of floats, of four bytes each
  pub fill_multi_floats : List DataBlock → VertexBuffer → D → Run (VertexBuffer × D)
  fill_multi_floats = fill_multi 4

  pub activate :
      (Slot → ℕ → D → Run D) → VertexBuffer → RenderDeviceState → D → Run (RenderDeviceState × D)
  activate tell b s d = do
    let id = select b.active_index b.vertex_buffer_ids
    assert (not (id == none_id))
    RenderDeviceState.activate_vertex_stream tell s d id
