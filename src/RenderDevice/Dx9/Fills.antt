-- ===== src/RenderDevice/Dx9/Fills.antt =====
-- The modifiers and accessors of render_device_dx9.cpp.
pub mod Ranges
pub mod ViewPorts
use yengine.Base.{
  ℕ, zero, suc, ◌+◌, ◌-◌, ◌*◌, ◌/◌, ◌%◌, ◌^◌, Bool, true, false, not, ◌&&◌, ◌||◌, List, [], ◌∷◌,
  ◌++◌, Option, none, some, map, leb, ltb, ◌==◌, if◌then◌else◌, length, get_or, take, drop, Run, ok,
  fault, out_of_range, ◌>>=◌, ◌>>◌, assert, require, add32, word32,
}
use yengine.RenderDevice.DataArray.{DataArray, is_used, get, put}
use yengine.RenderDevice.Dx9.{
  UsageType, usage_invalid, usage_immutable, usage_static, usage_dynamic, usage_system, LockFlags,
  lock_none, lock_discard, lock_no_overwrite, ViewPortData, SurfaceData, TextureData, VertBuffData,
  IndexBuffData, ConstBuffData, D3dCall, lock_rect, lock, store, unlock, RenderDevice, used_item,
  D3d, invoke, invoke_void,
}

-- usage == kUsageType_Static || usage == kUsageType_Dynamic
pub can_fill : UsageType → Bool
can_fill usage_static = true
can_fill usage_dynamic = true
can_fill usage_invalid = false
can_fill usage_immutable = false
can_fill usage_system = false

pub is_dynamic : UsageType → Bool
is_dynamic usage_dynamic = true
is_dynamic usage_static = false
is_dynamic usage_invalid = false
is_dynamic usage_immutable = false
is_dynamic usage_system = false

-- The size of a mip level, where 0 becomes 1.
pub mip_length : ℕ → ℕ → ℕ
mip_length size mip = let shifted = size / 2 ^ mip in if shifted == 0 then 1 else shifted

-- The loop of FillVertexBufferInterleaved that adds up sizes.
pub sum32 : List ℕ → ℕ → ℕ
sum32 [] total = total
sum32 (x ∷ xs) total = sum32 xs (add32 total x)

-- What the pointer moves on by for an element: the loop over the interleaves.
pub advance_of : List ℕ → ℕ
advance_of [] = 0
advance_of (stride ∷ strides) = stride + advance_of strides

-- The element of every buffer at index `i`: the loop over the interleaves.
pub interleave : List ℕ → List (List ℕ) → ℕ → List ℕ
interleave [] buffers i = []
interleave (stride ∷ strides) [] i = []
interleave (stride ∷ strides) (buffer ∷ buffers) i =
    take stride (drop (stride * i) buffer) ++ interleave strides buffers i

-- The loop over the elements, from index `i` on, over as many as are left.
pub interleave_all : List ℕ → List (List ℕ) → ℕ → ℕ → List ℕ
interleave_all strides buffers zero i = []
interleave_all strides buffers (suc left) i =
    interleave strides buffers i ++ interleave_all strides buffers left (i + 1)

module _ {S : Type 0} where
  pub set_view_port : ℕ → ViewPortData → RenderDevice S → Run (RenderDevice S)
  set_view_port viewport shape w = do
    assert (is_used w.view_ports viewport)
    view_ports ← put w.view_ports viewport shape
    ok (record w { view_ports = view_ports })

  pub get_view_port : ℕ → RenderDevice S → Run ViewPortData
  get_view_port viewport w = used_item w.view_ports viewport

  -- GetFrameBufferDimensions(width, height): it writes the device from the arguments, and the arguments
  -- not at all.
  pub get_frame_buffer_dimensions : ℕ → ℕ → RenderDevice S → (ℕ × ℕ) × RenderDevice S
  get_frame_buffer_dimensions width height w =
      ((width, height), record w { width = width; height = height })

  pub get_back_buffer_render_target : RenderDevice S → ℕ
  get_back_buffer_render_target w = w.back_buffer_render_target

  pub get_render_target_texture : ℕ → RenderDevice S → Run ℕ
  get_render_target_texture render_target w = do
    surface ← used_item w.surfaces render_target
    ok surface.texture_id

  pub reset_vertex_buffer : ℕ → RenderDevice S → Run (RenderDevice S)
  reset_vertex_buffer vertex_buffer w = do
    buffer ← used_item w.vertex_buffers vertex_buffer
    vertex_buffers ← put w.vertex_buffers vertex_buffer (record buffer { count = 0 })
    ok (record w { vertex_buffers = vertex_buffers })

  pub reset_index_buffer : ℕ → RenderDevice S → Run (RenderDevice S)
  reset_index_buffer index_buffer w = do
    buffer ← used_item w.index_buffers index_buffer
    index_buffers ← put w.index_buffers index_buffer (record buffer { count = 0 })
    ok (record w { index_buffers = index_buffers })

  pub get_vertex_buffer_count : ℕ → RenderDevice S → Run ℕ
  get_vertex_buffer_count vertex_buffer w = do
    buffer ← used_item w.vertex_buffers vertex_buffer
    ok buffer.count

  pub get_index_buffer_count : ℕ → RenderDevice S → Run ℕ
  get_index_buffer_count index_buffer w = do
    buffer ← used_item w.index_buffers index_buffer
    ok buffer.count

  -- FillConstantBuffer; what it copies to gMemory is not followed further.
  pub fill_constant_buffer : ℕ → List ℕ → ℕ → RenderDevice S → Run (RenderDevice S)
  fill_constant_buffer constant_buffer buffer size w = do
    data_of ← used_item w.const_buffers constant_buffer
    assert (can_fill data_of.usage)
    assert (data_of.size == size)
    ok w

module _ {S : Type 0} (direct3d : D3d S) where
  pub fill_texture_mip : ℕ → ℕ → List ℕ → ℕ → RenderDevice S → Run (RenderDevice S)
  fill_texture_mip texture mip buffer size w = do
    texture_data ← used_item w.textures texture
    assert (can_fill texture_data.usage)
    let width = mip_length texture_data.width mip
    let height = mip_length texture_data.height mip
    assert (size == word32 (width * height))
    (bits, w1) ← invoke direct3d (lock_rect texture_data.texture mip lock_discard) w
    let w2 = invoke_void direct3d (store bits (take size buffer)) w1
    (_, w3) ← invoke direct3d (unlock texture_data.texture) w2
    ok w3

  -- The loop of FillTexture from mip `i` on, over as many as are left; what was used.
  pub fill_mips : ℕ → ℕ → ℕ → ℕ → ℕ → ℕ → List ℕ → ℕ → RenderDevice S → Run (ℕ × RenderDevice S)
  fill_mips texture zero i width height used_size buffer size w = ok (used_size, w)
  fill_mips texture (suc left) i width height used_size buffer size w = do
    let current_size = word32 (width * height)
    assert (leb (add32 used_size current_size) size)
    w' ← fill_texture_mip texture i (drop used_size buffer) current_size w
    fill_mips texture left (i + 1) (if leb width 1 then 1 else width / 2)
        (if leb height 1 then 1 else height / 2) (add32 used_size current_size) buffer size w'

  pub fill_texture : ℕ → List ℕ → ℕ → RenderDevice S → Run (RenderDevice S)
  fill_texture texture buffer size w = do
    texture_data ← used_item w.textures texture
    (used_size, w') ←
        fill_mips texture texture_data.mips 0 texture_data.width texture_data.height 0 buffer size w
    assert (used_size == size)
    ok w'

  -- Each buffer stands for its bytes, and has the size that is told beside it.
  pub fill_vertex_buffer_interleaved :
      ℕ → ℕ → List ℕ → List (List ℕ) → List ℕ → ℕ → RenderDevice S → Run (RenderDevice S)
  fill_vertex_buffer_interleaved vertex_buffer count stride_sizes buffers buffer_sizes index_offset
        w =
      do
        buffer ← used_item w.vertex_buffers vertex_buffer
        assert (can_fill buffer.usage)
        let index_end = add32 index_offset count
        assert (ltb buffer.total_count index_end)
        vertex_buffers ← put w.vertex_buffers vertex_buffer (record buffer {
          count = if ltb buffer.count index_end then index_end else buffer.count;
        })
        let w1 = record w { vertex_buffers = vertex_buffers }
        let total_stride = sum32 stride_sizes 0
        let total_buffer_size = sum32 buffer_sizes 0
        assert (not (total_stride == buffer.stride))
        let stride = buffer.stride
        let fill_index = word32 (index_offset * stride)
        assert (word32 (count * stride) == total_buffer_size)
        let flags = if is_dynamic buffer.usage then lock_no_overwrite else lock_none
        (bits, w2) ←
            invoke direct3d (lock buffer.vertex_buffer fill_index total_buffer_size flags) w1
        w3 ←
            (if length stride_sizes == 1
              then ok (
                  invoke_void direct3d (store bits (take total_buffer_size (get_or buffers 0 [])))
                    w2)
              else (do
                assert (fill_index + count * advance_of stride_sizes == total_buffer_size)
                ok (
                    invoke_void direct3d
                      (store (bits + fill_index) (interleave_all stride_sizes buffers count 0))
                      w2)))
        (_, w4) ← invoke direct3d (unlock buffer.vertex_buffer) w3
        ok w4

  pub fill_vertex_buffer : ℕ → ℕ → List ℕ → ℕ → ℕ → RenderDevice S → Run (RenderDevice S)
  fill_vertex_buffer vertex_buffer count buffer buffer_size index_offset w = do
    data_of ← used_item w.vertex_buffers vertex_buffer
    fill_vertex_buffer_interleaved vertex_buffer count (data_of.stride ∷ []) (buffer ∷ [])
        (buffer_size ∷ []) index_offset w

  -- `buffer` is the list of the 16-bit words that the pointer leads to; the loop for an offset of 0 runs
  -- over as many words as there are bytes.
  pub fill_index_buffer : ℕ → ℕ → List ℕ → ℕ → ℕ → ℕ → RenderDevice S → Run (RenderDevice S)
  fill_index_buffer index_buffer count buffer buffer_size vertex_offset index_offset w = do
    data_of ← used_item w.index_buffers index_buffer
    assert (can_fill data_of.usage)
    let index_end = add32 index_offset count
    assert (ltb data_of.total_count index_end)
    index_buffers ← put w.index_buffers index_buffer (record data_of {
      count = if ltb data_of.count index_end then index_end else data_of.count;
    })
    let w1 = record w { index_buffers = index_buffers }
    assert (word32 (count * 2) == buffer_size)
    let flags = if is_dynamic data_of.usage then lock_no_overwrite else lock_none
    (bits, w2) ← invoke direct3d (lock data_of.index_buffer index_offset buffer_size flags) w1
    w3 ←
        (if vertex_offset == 0
          then (do
            assert (buffer_size % 2 == 0)
            require (leb buffer_size (length buffer)) out_of_range
            ok (
                invoke_void direct3d
                  (store bits
                    (map (λ word. (word + vertex_offset) % 2 ^ 16) (take buffer_size buffer)))
                  w2))
          else ok (invoke_void direct3d (store bits (take (buffer_size / 2) buffer)) w2))
    (_, w4) ← invoke direct3d (unlock data_of.index_buffer) w3
    ok w4
