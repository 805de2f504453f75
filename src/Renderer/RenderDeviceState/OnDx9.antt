-- ===== src/Renderer/RenderDeviceState/OnDx9.antt =====
-- The functions RenderDevice::Activate... of render_device_dx9.cpp that RenderDeviceState calls with an id.
use yengine.Base.{ℕ, Run}
use yengine.RenderDevice.Dx9.{RenderDevice, D3d}
use yengine.RenderDevice.Dx9.Activations.{
  activate_view_port_id, activate_render_blend_state, activate_render_target_id,
  activate_vertex_declaration, activate_vertex_shader_id, activate_pixel_shader_id,
  activate_vertex_sampler, activate_pixel_sampler, activate_vertex_texture_id,
  activate_pixel_texture_id, activate_vertex_stream_id, activate_index_stream_id,
}
use yengine.Renderer.RenderDeviceState.{
  Slot, view_port, blend_state, vertex_decl, vertex_shader, pixel_shader, index_stream,
  vertex_stream, render_target, vertex_sampler_state, pixel_sampler_state, vertex_texture,
  pixel_texture,
}

module _ {S : Type 0} (direct3d : D3d S) where
  abbrev pub activate_dx9 : Slot → ℕ → RenderDevice S → Run (RenderDevice S)
  activate_dx9 view_port id w = activate_view_port_id direct3d id w
  activate_dx9 blend_state id w = activate_render_blend_state direct3d id w
  activate_dx9 vertex_decl id w = activate_vertex_declaration direct3d id w
  activate_dx9 vertex_shader id w = activate_vertex_shader_id direct3d id w
  activate_dx9 pixel_shader id w = activate_pixel_shader_id direct3d id w
  activate_dx9 index_stream id w = activate_index_stream_id direct3d id w
  activate_dx9 vertex_stream id w = activate_vertex_stream_id direct3d 0 id w
  activate_dx9 (render_target target) id w = activate_render_target_id direct3d target id w
  activate_dx9 (vertex_sampler_state sampler) id w = activate_vertex_sampler direct3d sampler id w
  activate_dx9 (pixel_sampler_state sampler) id w = activate_pixel_sampler direct3d sampler id w
  activate_dx9 (vertex_texture sampler) id w = activate_vertex_texture_id direct3d sampler id w
  activate_dx9 (pixel_texture sampler) id w = activate_pixel_texture_id direct3d sampler id w
