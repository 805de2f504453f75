-- ===== src/RenderDevice/Dx9/Releases.antt =====
-- The releases of render_device_dx9.cpp, and what it releases at the end.
pub mod ViewPorts
use yengine.Base.{
  ℕ, Bool, true, false, not, List, ◌==◌, if◌then◌else◌, Run, ok, ◌>>=◌, ◌>>◌, assert,
}
use yengine.RenderDevice.DataArray.{DataArray, is_used, get, release_id, release_all}
use yengine.RenderDevice.Dx9.{
  UsageType, usage_invalid, usage_immutable, usage_static, usage_dynamic, usage_system, TextureData,
  texture_init, SurfaceData, surface_init, no_id16, VertexDeclData, vertex_decl_init, VertBuffData,
  vert_buff_init, IndexBuffData, index_buff_init, ConstBuffData, const_buff_init, ViewPortData,
  RenderBlendState, SamplerState, release_call, RenderDevice, used_item, D3d, invoke_void,
}

pub is_system : UsageType → Bool
is_system usage_system = true
is_system usage_invalid = false
is_system usage_immutable = false
is_system usage_static = false
is_system usage_dynamic = false

module _ {S : Type 0} (direct3d : D3d S) where
  -- Release of the items that hold nothing of Direct3D: InternalRenderBlendState, ViewPortData
  pub release_nothing : {A : Type 0} → A → RenderDevice S → Run (A × RenderDevice S)
  release_nothing x w = ok (x, w)

  pub release_texture_data : TextureData → RenderDevice S → Run (TextureData × RenderDevice S)
  release_texture_data t w = ok (
      if t.texture == 0
      then (t, w)
      else (texture_init, invoke_void direct3d (release_call t.texture) w))

  pub release_surface_data : SurfaceData → RenderDevice S → Run (SurfaceData × RenderDevice S)
  release_surface_data s w = if s.surface == 0 then ok (s, w) else do
    w1 ←
        (if s.texture_id == no_id16 then ok w else do
          (_, textures, w0) ← release_id release_texture_data w.textures s.texture_id w
          ok (record w0 { textures = textures }))
    ok (surface_init, invoke_void direct3d (release_call s.surface) w1)

  pub release_vertex_decl_data :
      VertexDeclData → RenderDevice S → Run (VertexDeclData × RenderDevice S)
  release_vertex_decl_data v w = ok (
      if v.decl == 0
      then (v, w)
      else (vertex_decl_init, invoke_void direct3d (release_call v.decl) w))

  -- VertexShaderData and PixelShaderData
  pub release_shader_data : ℕ → RenderDevice S → Run (ℕ × RenderDevice S)
  release_shader_data shader w =
      ok (if shader == 0 then (shader, w) else (0, invoke_void direct3d (release_call shader) w))

  pub release_vert_buff_data : VertBuffData → RenderDevice S → Run (VertBuffData × RenderDevice S)
  release_vert_buff_data v w = ok (
      if v.vertex_buffer == 0
      then (v, w)
      else (vert_buff_init, invoke_void direct3d (release_call v.vertex_buffer) w))

  pub release_index_buff_data :
      IndexBuffData → RenderDevice S → Run (IndexBuffData × RenderDevice S)
  release_index_buff_data b w = ok (
      if b.index_buffer == 0
      then (b, w)
      else (index_buff_init, invoke_void direct3d (release_call b.index_buffer) w))

  pub release_const_buff_data :
      ConstBuffData → RenderDevice S → Run (ConstBuffData × RenderDevice S)
  release_const_buff_data c w = ok (const_buff_init, w)

  pub release_view_port : ℕ → RenderDevice S → Run (RenderDevice S)
  release_view_port viewport w = do
    assert (is_used w.view_ports viewport)
    (_, view_ports, w') ← release_id release_nothing w.view_ports viewport w
    ok (record w' { view_ports = view_ports })

  pub release_render_target : ℕ → RenderDevice S → Run (RenderDevice S)
  release_render_target render_target w = do
    assert (is_used w.surfaces render_target)
    assert (not (render_target == w.back_buffer_render_target))
    (_, surfaces, w') ← release_id release_surface_data w.surfaces render_target w
    ok (record w' { surfaces = surfaces })

  pub release_vertex_declaration : ℕ → RenderDevice S → Run (RenderDevice S)
  release_vertex_declaration vertex_decl w = do
    assert (is_used w.vert_decls vertex_decl)
    (_, vert_decls, w') ← release_id release_vertex_decl_data w.vert_decls vertex_decl w
    ok (record w' { vert_decls = vert_decls })

  pub release_vertex_shader : ℕ → RenderDevice S → Run (RenderDevice S)
  release_vertex_shader shader w = do
    assert (is_used w.vert_shaders shader)
    (_, vert_shaders, w') ← release_id release_shader_data w.vert_shaders shader w
    ok (record w' { vert_shaders = vert_shaders })

  pub release_pixel_shader : ℕ → RenderDevice S → Run (RenderDevice S)
  release_pixel_shader shader w = do
    assert (is_used w.pixel_shaders shader)
    (_, pixel_shaders, w') ← release_id release_shader_data w.pixel_shaders shader w
    ok (record w' { pixel_shaders = pixel_shaders })

  pub release_texture : ℕ → RenderDevice S → Run (RenderDevice S)
  release_texture texture w = do
    texture_data ← used_item w.textures texture
    assert (not (is_system texture_data.usage))
    (_, textures, w') ← release_id release_texture_data w.textures texture w
    ok (record w' { textures = textures })

  pub release_vertex_buffer : ℕ → RenderDevice S → Run (RenderDevice S)
  release_vertex_buffer vertex_buffer w = do
    buffer ← used_item w.vertex_buffers vertex_buffer
    assert (not (is_system buffer.usage))
    (_, vertex_buffers, w') ← release_id release_vert_buff_data w.vertex_buffers vertex_buffer w
    ok (record w' { vertex_buffers = vertex_buffers })

  pub release_index_buffer : ℕ → RenderDevice S → Run (RenderDevice S)
  release_index_buffer index_buffer w = do
    buffer ← used_item w.index_buffers index_buffer
    assert (not (is_system buffer.usage))
    (_, index_buffers, w') ← release_id release_index_buff_data w.index_buffers index_buffer w
    ok (record w' { index_buffers = index_buffers })

  pub release_constant_buffer : ℕ → RenderDevice S → Run (RenderDevice S)
  release_constant_buffer constant_buffer w = do
    buffer ← used_item w.const_buffers constant_buffer
    assert (not (is_system buffer.usage))
    (_, const_buffers, w') ← release_id release_const_buff_data w.const_buffers constant_buffer w
    ok (record w' { const_buffers = const_buffers })

  -- Terminate, up to the release of the device
  pub terminate : RenderDevice S → Run (RenderDevice S)
  terminate w = do
    (index_buffers, w1) ← release_all release_index_buff_data w.index_buffers w
    let w2 = record w1 { index_buffers = index_buffers }
    (vertex_buffers, w3) ← release_all release_vert_buff_data w2.vertex_buffers w2
    let w4 = record w3 { vertex_buffers = vertex_buffers }
    (surfaces, w5) ← release_all release_surface_data w4.surfaces w4
    let w6 = record w5 { surfaces = surfaces }
    (textures, w7) ← release_all release_texture_data w6.textures w6
    ok (record w7 { textures = textures })
