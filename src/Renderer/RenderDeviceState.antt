-- ===== src/Renderer/RenderDeviceState.antt =====
-- struct RenderDeviceState of yengine/renderer/render_device_state.h and render_device_state.cpp: what is
-- active in the render device, kept so that the device is not told twice.
pub mod Slots
pub mod Writes
pub mod Sync
pub mod Registers
pub mod OnDx9
mod Tests
use yengine.Base.{
  ℕ, zero, suc, ◌+◌, Bool, true, false, not, ◌||◌, List, [], ◌∷◌, Option, none, some, ◌==◌,
  if◌then◌else◌, get_elem?, set, replicate, Run, ok, fault, out_of_range, ◌>>=◌,
}

-- An id of 8 bits and one of 16 bits after memset(this, -1, ...)
abbrev pub unset8 : ℕ
unset8 = 0xff

abbrev pub unset16 : ℕ
unset16 = 0xffff

pub record RenderDeviceState : Type 0 where
  pub set_view_port : ℕ
  pub set_blend_state_id : ℕ
  pub set_render_target_ids : List ℕ
  pub set_vertex_decl : ℕ
  pub set_vertex_float_arg : List ℕ
  pub set_pixel_float_arg : List ℕ
  pub set_vertex_sampler_state : List ℕ
  pub set_pixel_sampler_state : List ℕ
  pub set_vertex_texture_arg : List ℕ
  pub set_pixel_texture_arg : List ℕ
  pub set_vertex_shader : ℕ
  pub set_pixel_shader : ℕ
  pub set_index_stream : ℕ
  pub set_vertex_stream : ℕ

pub reset : RenderDeviceState
reset = record {
  set_view_port = unset8;
  set_blend_state_id = unset8;
  set_render_target_ids = replicate 4 unset8;
  set_vertex_decl = unset8;
  set_vertex_float_arg = replicate 32 unset16;
  set_pixel_float_arg = replicate 32 unset16;
  set_vertex_sampler_state = replicate 4 unset8;
  set_pixel_sampler_state = replicate 32 unset8;
  set_vertex_texture_arg = replicate 4 unset16;
  set_pixel_texture_arg = replicate 32 unset16;
  set_vertex_shader = unset8;
  set_pixel_shader = unset8;
  set_index_stream = unset16;
  set_vertex_stream = unset16;
}

-- What the functions RenderDevice::Activate... take beside the id: ActivateVertexStream is only called
-- for stream 0.
pub data Slot : Type 0 where
  view_port blend_state vertex_decl vertex_shader pixel_shader index_stream vertex_stream : Slot
  render_target vertex_sampler_state pixel_sampler_state vertex_texture pixel_texture : ℕ → Slot

-- The two functions RenderDevice::Activate...ConstantBuffer.
pub data Stage : Type 0 where
  vertex_stage pixel_stage : Stage

pub read : List ℕ → ℕ → Run ℕ
read ids index = elim (get_elem? ids index) [ none ↦ fault out_of_range | some id ↦ ok id ]

-- The loop of ActivateVertexFloatArg and ActivatePixelFloatArg from a register on, over as many
-- registers as are left: whether one of them had another id, and the ids.
pub set_registers : List ℕ → ℕ → ℕ → ℕ → Run (Bool × List ℕ)
set_registers ids reg zero id = ok (false, ids)
set_registers ids reg (suc left) id = do
  old ← read ids reg
  (update, ids') ← set_registers (if old == id then ids else set ids reg id) (reg + 1) left id
  ok (not (old == id) || update, ids')

-- `activate` is the render device: how telling a slot an id ends, with its state then.
module _ {D : Type 0} (activate : Slot → ℕ → D → Run D) where
  unfoldable pub activate_view_port : RenderDeviceState → D → ℕ → Run (RenderDeviceState × D)
  activate_view_port s d id =
      if s.set_view_port == id
      then ok (s, d)
      else do d' ← activate view_port id d; ok (record s { set_view_port = id }, d')

  pub activate_blend_state : RenderDeviceState → D → ℕ → Run (RenderDeviceState × D)
  activate_blend_state s d id =
      if s.set_blend_state_id == id
      then ok (s, d)
      else do d' ← activate blend_state id d; ok (record s { set_blend_state_id = id }, d')

  pub activate_render_target : RenderDeviceState → D → ℕ → ℕ → Run (RenderDeviceState × D)
  activate_render_target s d target id = do
    old ← read s.set_render_target_ids target
    if old == id then ok (s, d) else do
      d' ← activate (render_target target) id d
      ok (record s { set_render_target_ids = set s.set_render_target_ids target id }, d')

  pub activate_vertex_decl : RenderDeviceState → D → ℕ → Run (RenderDeviceState × D)
  activate_vertex_decl s d id =
      if s.set_vertex_decl == id
      then ok (s, d)
      else do d' ← activate vertex_decl id d; ok (record s { set_vertex_decl = id }, d')

  pub activate_vertex_sampler_state : RenderDeviceState → D → ℕ → ℕ → Run (RenderDeviceState × D)
  activate_vertex_sampler_state s d sampler id = do
    old ← read s.set_vertex_sampler_state sampler
    if old == id then ok (s, d) else do
      d' ← activate (vertex_sampler_state sampler) id d
      ok (record s { set_vertex_sampler_state = set s.set_vertex_sampler_state sampler id }, d')

  pub activate_pixel_sampler_state : RenderDeviceState → D → ℕ → ℕ → Run (RenderDeviceState × D)
  activate_pixel_sampler_state s d sampler id = do
    old ← read s.set_pixel_sampler_state sampler
    if old == id then ok (s, d) else do
      d' ← activate (pixel_sampler_state sampler) id d
      ok (record s { set_pixel_sampler_state = set s.set_pixel_sampler_state sampler id }, d')

  pub activate_vertex_texture : RenderDeviceState → D → ℕ → ℕ → Run (RenderDeviceState × D)
  activate_vertex_texture s d sampler id = do
    old ← read s.set_vertex_texture_arg sampler
    if old == id then ok (s, d) else do
      d' ← activate (vertex_texture sampler) id d
      ok (record s { set_vertex_texture_arg = set s.set_vertex_texture_arg sampler id }, d')

  pub activate_pixel_texture : RenderDeviceState → D → ℕ → ℕ → Run (RenderDeviceState × D)
  activate_pixel_texture s d sampler id = do
    old ← read s.set_pixel_texture_arg sampler
    if old == id then ok (s, d) else do
      d' ← activate (pixel_texture sampler) id d
      ok (record s { set_pixel_texture_arg = set s.set_pixel_texture_arg sampler id }, d')

  pub activate_vertex_shader : RenderDeviceState → D → ℕ → Run (RenderDeviceState × D)
  activate_vertex_shader s d id =
      if s.set_vertex_shader == id
      then ok (s, d)
      else do d' ← activate vertex_shader id d; ok (record s { set_vertex_shader = id }, d')

  pub activate_pixel_shader : RenderDeviceState → D → ℕ → Run (RenderDeviceState × D)
  activate_pixel_shader s d id =
      if s.set_pixel_shader == id
      then ok (s, d)
      else do d' ← activate pixel_shader id d; ok (record s { set_pixel_shader = id }, d')

  pub activate_index_stream : RenderDeviceState → D → ℕ → Run (RenderDeviceState × D)
  activate_index_stream s d id =
      if s.set_index_stream == id
      then ok (s, d)
      else do d' ← activate index_stream id d; ok (record s { set_index_stream = id }, d')

  pub activate_vertex_stream : RenderDeviceState → D → ℕ → Run (RenderDeviceState × D)
  activate_vertex_stream s d id =
      if s.set_vertex_stream == id
      then ok (s, d)
      else do d' ← activate vertex_stream id d; ok (record s { set_vertex_stream = id }, d')

-- The render device again: its state after a constant buffer is told to a stage, to be loaded from a
-- register on.
module _ {D : Type 0} (activate_constants : Stage → ℕ → ℕ → D → D) where
  pub activate_vertex_float_arg : RenderDeviceState → D → ℕ → ℕ → ℕ → Run (RenderDeviceState × D)
  activate_vertex_float_arg s d reg num_regs id = do
    (update, ids) ← set_registers s.set_vertex_float_arg reg num_regs id
    ok (
      record s { set_vertex_float_arg = ids },
      if update then activate_constants vertex_stage reg id d else d,
    )

  pub activate_pixel_float_arg : RenderDeviceState → D → ℕ → ℕ → ℕ → Run (RenderDeviceState × D)
  activate_pixel_float_arg s d reg num_regs id = do
    (update, ids) ← set_registers s.set_pixel_float_arg reg num_regs id
    ok (
      record s { set_pixel_float_arg = ids },
      if update then activate_constants pixel_stage reg id d else d,
    )
