-- ===== src/RenderDevice/Dx9/Draws.antt =====
-- ActivateDrawPrimitive and the draw calls of render_device_dx9.cpp.
pub mod Faults
use yengine.Base.{
  ℕ, zero, suc, ◌+◌, ◌-◌, ◌*◌, ◌/◌, ◌%◌, ◌^◌, Bool, true, false, not, ◌&&◌, List, [], ◌∷◌, ltb, leb,
  ◌==◌, if◌then◌else◌, get_or, Run, ok, fault, division_by_zero, ◌>>=◌, ◌>>◌, assert, require,
  word32,
}
use yengine.RenderDevice.DataArray.{get}
use yengine.RenderDevice.Dx9.{
  D3dPrimitive, point_list, line_list, line_strip, triangle_list, triangle_strip, triangle_fan,
  VertBuffData, draw_primitive_call, draw_indexed_primitive_call, begin_scene, end_scene,
  present_call, DrawPoints, divide_by, subtract, no_id16, RenderDevice, entry, D3d, invoke,
}

-- kPrimitiveDrawTypes and kPrimitiveDrawPoints
pub primitive_draw_types : List D3dPrimitive
primitive_draw_types =
    point_list ∷ line_list ∷ line_strip ∷ triangle_list ∷ triangle_strip ∷ triangle_fan ∷ []

pub primitive_draw_points : List DrawPoints
primitive_draw_points =
    divide_by 1 ∷ divide_by 2 ∷ subtract 0 ∷ divide_by 3 ∷ subtract 1 ∷ subtract 1 ∷ []

-- gDrawPoints == 0
pub is_zero : DrawPoints → Bool
is_zero (divide_by n) = n == 0
is_zero (subtract n) = false

-- The number of primitives. A negative number of points is added to the number of vertices, as an int,
-- and a result that is not positive fails an assertion.
pub num_primitives_of : DrawPoints → ℕ → Run ℕ
num_primitives_of (subtract n) num_verts = do
  assert (ltb (suc n) num_verts && ltb num_verts (2 ^ 31))
  ok (num_verts - suc n)
num_primitives_of (divide_by n) num_verts = do
  require (not (n == 0)) division_by_zero
  assert (num_verts % n == 0)
  ok (num_verts / n)

-- ActivateDrawPrimitive, of an enum that is not negative
pub activate_draw_primitive : {S : Type 0} → ℕ → RenderDevice S → Run (RenderDevice S)
activate_draw_primitive draw_primitive w = do
  assert (leb 6 draw_primitive)
  type ← entry primitive_draw_types draw_primitive
  points ← entry primitive_draw_points draw_primitive
  ok (record w { activated_draw_primitive_type = type; draw_points = points })

module _ {S : Type 0} (direct3d : D3d S) where
  -- The id of a stream is promoted to an int, so it is never -1.
  pub draw : ℕ → ℕ → RenderDevice S → Run (RenderDevice S)
  draw start_vertex num_verts w = do
    assert (is_zero w.draw_points)
    num_primitives ← num_primitives_of w.draw_points num_verts
    (_, w') ←
        invoke direct3d
          (draw_primitive_call w.activated_draw_primitive_type start_vertex num_primitives) w
    ok w'

  pub draw_instanced : ℕ → ℕ → ℕ → ℕ → RenderDevice S → Run (RenderDevice S)
  draw_instanced start_vertex verts_per_instance start_instance num_instances w =
      draw (word32 (start_vertex + start_instance * verts_per_instance))
        (word32 (num_instances * verts_per_instance)) w

  pub draw_indexed : ℕ → ℕ → ℕ → RenderDevice S → Run (RenderDevice S)
  draw_indexed start_index num_indexes vertex_offset w = do
    assert (is_zero w.draw_points)
    let vert_id = get_or w.activated_streams 0 no_id16
    assert (not (vert_id == no_id16))
    num_primitives ← num_primitives_of w.draw_points num_indexes
    vertex_buffer_data ← get w.vertex_buffers vert_id
    (_, w') ←
        invoke direct3d
          (draw_indexed_primitive_call w.activated_draw_primitive_type vertex_offset
            vertex_buffer_data.total_count start_index num_primitives)
          w
    ok w'

  pub draw_indexed_instanced : ℕ → ℕ → ℕ → ℕ → ℕ → RenderDevice S → Run (RenderDevice S)
  draw_indexed_instanced start_index index_per_instance start_instance num_instances vertex_offset
        w =
      draw_indexed (word32 (start_index + start_instance * index_per_instance))
        (word32 (num_instances * index_per_instance)) vertex_offset w

  pub execute_command_list : ℕ → RenderDevice S → Run (RenderDevice S)
  execute_command_list commands w = do
    (_, w1) ← invoke direct3d begin_scene w
    (_, w2) ← invoke direct3d end_scene w1
    ok w2

  pub present : RenderDevice S → Run (RenderDevice S)
  present w = do (_, w') ← invoke direct3d present_call w; ok w'
