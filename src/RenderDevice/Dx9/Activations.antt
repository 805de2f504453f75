-- ===== src/RenderDevice/Dx9/Activations.antt =====
-- The activations of render_device_dx9.cpp.
pub mod ViewPorts
use yengine.Base.{
  ℕ, zero, suc, ◌+◌, ◌/◌, ◌&&◌, List, ltb, ◌==◌, if◌then◌else◌, length, get_or, set, Run, ok,
  out_of_range, ◌>>=◌, ◌>>◌, assert, require,
}
use yengine.RenderDevice.Dx9.{
  D3dRenderState, src_blend, dest_blend, blend_op, separate_alpha_blend_enable, dmap_sampler,
  vertex_texture_sampler0, no_id8, SamplerState, set_viewport, set_render_state, set_render_target,
  set_vertex_declaration, set_vertex_shader, set_pixel_shader, set_indices, set_stream_source_freq,
  set_sampler_states, set_texture, set_stream_source, set_vertex_shader_constant,
  set_pixel_shader_constant, RenderDevice, used_item, D3d, invoke,
}

module _ {S : Type 0} (direct3d : D3d S) where
  pub activate_view_port_id : ℕ → RenderDevice S → Run (RenderDevice S)
  activate_view_port_id viewport w = do
    shape ← used_item w.view_ports viewport
    (_, w') ← invoke direct3d (set_viewport shape) w
    ok w'

  -- SetRenderState(state, table[value]); the translation of the enum is its number.
  pub set_state : D3dRenderState → ℕ → ℕ → RenderDevice S → Run (RenderDevice S)
  set_state state bound value w = do
    require (ltb value bound) out_of_range
    (_, w') ← invoke direct3d (set_render_state state value) w
    ok w'

  -- The three calls for the factors of the alpha go to the states of the colours again.
  pub activate_render_blend_state : ℕ → RenderDevice S → Run (RenderDevice S)
  activate_render_blend_state blend_state w = do
    state ← used_item w.render_blend_states blend_state
    w1 ← set_state src_blend 10 state.source w
    w2 ← set_state dest_blend 10 state.dest w1
    w3 ← set_state blend_op 5 state.blend_op_of w2
    if state.source == state.alpha_source && state.dest == state.alpha_dest
        then set_state separate_alpha_blend_enable 2 0 w3
        else (do
          w4 ← set_state separate_alpha_blend_enable 2 1 w3
          w5 ← set_state src_blend 10 state.alpha_source w4
          w6 ← set_state dest_blend 10 state.alpha_dest w5
          set_state blend_op 5 state.alpha_blend_op w6)

  -- NULL_RENDER_TARGET is -1, as an id.
  pub activate_render_target_id : ℕ → ℕ → RenderDevice S → Run (RenderDevice S)
  activate_render_target_id target render_target w =
      if render_target == no_id8
      then (do (_, w') ← invoke direct3d (set_render_target target 0) w; ok w')
      else (do
        surface ← used_item w.surfaces render_target
        (_, w') ← invoke direct3d (set_render_target target surface.surface) w
        ok w')

  -- The loop of ActivateVertexDeclaration from stream `i` on, over as many as are left.
  pub set_stream_freqs : ℕ → ℕ → List ℕ → RenderDevice S → Run (RenderDevice S)
  set_stream_freqs zero i divisors w = ok w
  set_stream_freqs (suc left) i divisors w = do
    require (ltb i (length divisors)) out_of_range
    (_, w') ← invoke direct3d (set_stream_source_freq i (get_or divisors i 0)) w
    set_stream_freqs left (i + 1) divisors w'

  pub activate_vertex_declaration : ℕ → RenderDevice S → Run (RenderDevice S)
  activate_vertex_declaration vertex_decl w = do
    vertex_decl_data ← used_item w.vert_decls vertex_decl
    (_, w') ← invoke direct3d (set_vertex_declaration vertex_decl_data.decl) w
    set_stream_freqs vertex_decl_data.num_streams 0 vertex_decl_data.stream_divisors w'

  pub activate_vertex_shader_id : ℕ → RenderDevice S → Run (RenderDevice S)
  activate_vertex_shader_id shader w = do
    pointer ← used_item w.vert_shaders shader
    (_, w') ← invoke direct3d (set_vertex_shader pointer) w
    ok w'

  pub activate_pixel_shader_id : ℕ → RenderDevice S → Run (RenderDevice S)
  activate_pixel_shader_id shader w = do
    pointer ← used_item w.pixel_shaders shader
    (_, w') ← invoke direct3d (set_pixel_shader pointer) w
    ok w'

  -- ActivateSamplerHelper: the six calls for the state, in their order, are one call of the parameter.
  pub activate_sampler_helper : ℕ → SamplerState → RenderDevice S → Run (RenderDevice S)
  activate_sampler_helper sampler state w = do
    require
        (ltb state.address_mode_u 3 && (ltb state.address_mode_v 3 && ltb state.address_mode_w 3))
        out_of_range
    (_, w') ← invoke direct3d (set_sampler_states sampler state) w
    ok w'

  pub activate_vertex_sampler : ℕ → ℕ → RenderDevice S → Run (RenderDevice S)
  activate_vertex_sampler sampler sampler_state w = do
    state ← used_item w.sampler_states sampler_state
    assert (ltb sampler 4)
    require (ltb state.filter 7) out_of_range
    activate_sampler_helper (vertex_texture_sampler0 + sampler) state w

  pub activate_pixel_sampler : ℕ → ℕ → RenderDevice S → Run (RenderDevice S)
  activate_pixel_sampler sampler sampler_state w = do
    state ← used_item w.sampler_states sampler_state
    assert (ltb sampler dmap_sampler)
    require (ltb state.filter 7) out_of_range
    activate_sampler_helper sampler state w

  pub activate_vertex_texture_id : ℕ → ℕ → RenderDevice S → Run (RenderDevice S)
  activate_vertex_texture_id sampler texture w = do
    texture_data ← used_item w.textures texture
    assert (ltb sampler 4)
    (_, w') ←
        invoke direct3d (set_texture (vertex_texture_sampler0 + sampler) texture_data.texture) w
    ok w'

  pub activate_pixel_texture_id : ℕ → ℕ → RenderDevice S → Run (RenderDevice S)
  activate_pixel_texture_id sampler texture w = do
    texture_data ← used_item w.textures texture
    assert (ltb sampler dmap_sampler)
    (_, w') ← invoke direct3d (set_texture sampler texture_data.texture) w
    ok w'

  pub activate_vertex_stream_id : ℕ → ℕ → RenderDevice S → Run (RenderDevice S)
  activate_vertex_stream_id stream vertex_buffer w = do
    assert (ltb stream (length w.activated_streams))
    buffer ← used_item w.vertex_buffers vertex_buffer
    let w1 = record w { activated_streams = set w.activated_streams stream vertex_buffer }
    (_, w2) ← invoke direct3d (set_stream_source stream buffer.vertex_buffer buffer.stride) w1
    ok w2

  pub activate_index_stream_id : ℕ → RenderDevice S → Run (RenderDevice S)
  activate_index_stream_id index_buffer w = do
    buffer ← used_item w.index_buffers index_buffer
    (_, w') ← invoke direct3d (set_indices buffer.index_buffer) w
    ok w'

  pub activate_vertex_constant_buffer : ℕ → ℕ → RenderDevice S → Run (RenderDevice S)
  activate_vertex_constant_buffer start_reg constant_buffer w = do
    buffer ← used_item w.const_buffers constant_buffer
    (_, w') ←
        invoke direct3d (set_vertex_shader_constant start_reg buffer.buffer_data (buffer.size / 16))
          w
    ok w'

  pub activate_pixel_constant_buffer : ℕ → ℕ → RenderDevice S → Run (RenderDevice S)
  activate_pixel_constant_buffer start_reg constant_buffer w = do
    buffer ← used_item w.const_buffers constant_buffer
    (_, w') ←
        invoke direct3d (set_pixel_shader_constant start_reg buffer.buffer_data (buffer.size / 16))
          w
    ok w'
