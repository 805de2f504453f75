-- ===== src/RenderDevice/Dx9/Creates.antt =====
-- The functions of render_device_dx9.cpp that create resources.
pub mod Filled
pub mod Formats
pub mod Surfaces
pub mod ViewPorts
mod Tests
use yengine.Base.{
  ℕ, zero, suc, ◌+◌, ◌-◌, ◌*◌, ◌/◌, ◌%◌, ◌^◌, Bool, true, false, not, ◌&&◌, ◌||◌, List, [], ◌∷◌,
  ◌++◌, Option, none, some, max, leb, ltb, ◌==◌, if◌then◌else◌, length, get_or, set, Run, ok, fault,
  assertion, out_of_range, ◌>>=◌, ◌>>◌, assert, require, word32,
}
use yengine.Headers.Macros.{is_power_of_2}
use yengine.RenderDevice.DataArray.{DataArray, get, put, allocate_id}
use yengine.RenderDevice.Dx9.{
  UsageType, usage_invalid, usage_immutable, usage_static, usage_dynamic, usage_system, D3dFormat,
  D3dUsage, usage_none, usage_render_target, usage_dynamic_only, usage_write_only,
  usage_dynamic_write_only, D3dPool, pool_default, pool_system_mem, texture_formats, ViewPortData,
  view_port_init, RenderBlendState, SamplerState, TextureData, texture_init, SurfaceData,
  surface_init, no_id8, no_id16, VertexDeclElement, VertexDeclData, vertex_decl_init, VertBuffData,
  vert_buff_init, IndexBuffData, index_buff_init, ConstBuffData, const_buff_init, D3dCall,
  create_texture_call, get_surface_level, create_vertex_declaration_call, create_vertex_shader_call,
  create_pixel_shader_call, create_vertex_buffer_call, create_index_buffer_call, RenderDevice,
  entry, D3d, invoke, allocate_memory,
}
use yengine.RenderDevice.Dx9.Fills.{
  is_dynamic, fill_texture, fill_vertex_buffer, fill_index_buffer, fill_constant_buffer,
}

-- T_ID is uint8_t or uint16_t.
abbrev pub ids8 : ℕ
ids8 = 0x100

abbrev pub ids16 : ℕ
ids16 = 0x1_0000

abbrev pub pool_of : UsageType → D3dPool
pool_of type = if is_dynamic type then pool_default else pool_system_mem

abbrev pub write_usage_of : UsageType → D3dUsage
write_usage_of type = if is_dynamic type then usage_dynamic_write_only else usage_write_only

-- The loop of CreateVertexDeclaration over the elements: the number of the last stream and, for each
-- stream, its divisor and whether it is set.
pub decl_elements : List VertexDeclElement → ℕ → List ℕ → List Bool → Run (ℕ × List ℕ × List Bool)
decl_elements [] max_streams divisors are_set = ok (max_streams, divisors, are_set)
decl_elements (element ∷ elements) max_streams divisors are_set = do
  require (ltb element.element_usage 10 && ltb element.element_type 4) out_of_range
  let stream = element.stream_num
  assert (ltb stream 2)
  let is_set = get_or are_set stream false
  assert (not is_set || element.instance_divisor == get_or divisors stream 0)
  decl_elements elements (max stream max_streams)
      (if is_set then divisors else set divisors stream element.instance_divisor)
      (if is_set then are_set else set are_set stream true)

module _ {S : Type 0} (direct3d : D3d S) where
  pub create_view_port : ViewPortData → RenderDevice S → Run (ℕ × RenderDevice S)
  create_view_port shape w = do
    (viewport_id, view_ports) ← allocate_id ids8 view_port_init w.view_ports
    assert (not (viewport_id == no_id8))
    view_ports' ← put view_ports viewport_id shape
    ok (viewport_id, record w { view_ports = view_ports' })

  -- An enum is not negative; what stands in the item before is not read, so `state` stands for it.
  pub create_render_blend_state : RenderBlendState → RenderDevice S → Run (ℕ × RenderDevice S)
  create_render_blend_state state w = do
    assert (ltb state.source 10)
    assert (ltb state.dest 10)
    assert (ltb state.blend_op_of 5)
    assert (ltb state.alpha_source 10)
    assert (ltb state.alpha_dest 10)
    assert (ltb state.alpha_blend_op 5)
    (state_id, states) ← allocate_id ids8 state w.render_blend_states
    assert (not (state_id == no_id8))
    states' ← put states state_id state
    ok (state_id, record w { render_blend_states = states' })

  pub create_sampler_state : SamplerState → RenderDevice S → Run (ℕ × RenderDevice S)
  create_sampler_state state w = do
    assert (ltb state.filter 7)
    assert (ltb state.address_mode_u 3)
    (state_id, states) ← allocate_id ids8 state w.sampler_states
    assert (not (state_id == no_id8))
    states' ← put states state_id state
    ok (state_id, record w { sampler_states = states' })

  -- CreateRenderTarget under the ids that it has, in the tables that have them: the surface is stored at
  -- the id of the texture.
  pub new_render_target :
      ℕ
      → ℕ
      → D3dFormat
      → ℕ
      → DataArray TextureData
      → ℕ
      → DataArray SurfaceData
      → RenderDevice S
      → Run (ℕ × RenderDevice S)
  new_render_target width height d3d_format texture_id textures surface_id surfaces w = do
    (texture, w1) ←
        invoke direct3d
          (create_texture_call width height 1 usage_render_target d3d_format pool_default) w
    textures' ← put textures texture_id (record {
      texture = texture;
      usage = usage_system;
      format = d3d_format;
      width = width;
      height = height;
      mips = 1;
    })
    (surface, w2) ← invoke direct3d (get_surface_level texture) w1
    surfaces' ← put surfaces texture_id (record { surface = surface; texture_id = texture_id })
    ok (surface_id, record w2 { textures = textures'; surfaces = surfaces' })

  pub create_render_target : ℕ → ℕ → ℕ → RenderDevice S → Run (ℕ × RenderDevice S)
  create_render_target width height format w = do
    assert (ltb 0 format && ltb format (length texture_formats))
    d3d_format ← entry texture_formats format
    (texture_id, textures) ← allocate_id ids16 texture_init w.textures
    assert (not (texture_id == no_id16))
    (surface_id, surfaces) ← allocate_id ids8 surface_init w.surfaces
    assert (not (surface_id == no_id8))
    new_render_target width height d3d_format texture_id textures surface_id surfaces w

  pub create_vertex_declaration : List VertexDeclElement → RenderDevice S → Run (ℕ × RenderDevice S)
  create_vertex_declaration elements w = do
    assert (ltb (length elements) 24)
    (vert_decl_id, vert_decls) ← allocate_id ids8 vertex_decl_init w.vert_decls
    assert (not (vert_decl_id == no_id8))
    (max_streams, divisors, _) ← decl_elements elements 0 (0 ∷ 0 ∷ []) (false ∷ false ∷ [])
    (decl, w') ← invoke direct3d (create_vertex_declaration_call elements) w
    vert_decls' ←
        put vert_decls vert_decl_id (record {
          decl = decl;
          num_streams = (max_streams + 1) % 256;
          stream_divisors = divisors;
        })
    ok (vert_decl_id, record w' { vert_decls = vert_decls' })

  -- `shader_data` is the list of the shader_size bytes.
  pub create_vertex_shader : List ℕ → RenderDevice S → Run (ℕ × RenderDevice S)
  create_vertex_shader shader_data w = do
    assert (not (length shader_data == 0))
    (shader_id, vert_shaders) ← allocate_id ids8 0 w.vert_shaders
    assert (not (shader_id == no_id8))
    (shader, w') ← invoke direct3d (create_vertex_shader_call shader_data) w
    vert_shaders' ← put vert_shaders shader_id shader
    ok (shader_id, record w' { vert_shaders = vert_shaders' })

  pub create_pixel_shader : List ℕ → RenderDevice S → Run (ℕ × RenderDevice S)
  create_pixel_shader shader_data w = do
    assert (not (length shader_data == 0))
    (shader_id, pixel_shaders) ← allocate_id ids8 0 w.pixel_shaders
    assert (not (shader_id == no_id8))
    (shader, w') ← invoke direct3d (create_pixel_shader_call shader_data) w
    pixel_shaders' ← put pixel_shaders shader_id shader
    ok (shader_id, record w' { pixel_shaders = pixel_shaders' })

  -- The switch over the usage that the four functions below end in: the usage is set by `set_usage`, and
  -- `fill` is the call of Fill...; `buffer_size` is 0 where no buffer is given.
  pub fill_created :
      (UsageType → RenderDevice S → Run (RenderDevice S))
      → (RenderDevice S → Run (RenderDevice S))
      → ℕ
      → UsageType
      → RenderDevice S
      → Run (RenderDevice S)
  fill_created set_usage fill buffer_size usage_immutable w = do
    assert (ltb 0 buffer_size)
    w1 ← set_usage usage_static w
    w2 ← fill w1
    set_usage usage_immutable w2
  fill_created set_usage fill buffer_size usage_static w = do
    w1 ← set_usage usage_static w
    if ltb 0 buffer_size then fill w1 else ok w1
  fill_created set_usage fill buffer_size usage_dynamic w = do
    w1 ← set_usage usage_dynamic w
    if ltb 0 buffer_size then fill w1 else ok w1
  fill_created set_usage fill buffer_size usage_invalid w = fault assertion
  fill_created set_usage fill buffer_size usage_system w = fault assertion

  pub set_texture_usage : ℕ → UsageType → RenderDevice S → Run (RenderDevice S)
  set_texture_usage id type w = do
    item ← get w.textures id
    textures ← put w.textures id (record item { usage = type })
    ok (record w { textures = textures })

  pub set_vertex_buffer_usage : ℕ → UsageType → RenderDevice S → Run (RenderDevice S)
  set_vertex_buffer_usage id type w = do
    item ← get w.vertex_buffers id
    vertex_buffers ← put w.vertex_buffers id (record item { usage = type })
    ok (record w { vertex_buffers = vertex_buffers })

  pub set_index_buffer_usage : ℕ → UsageType → RenderDevice S → Run (RenderDevice S)
  set_index_buffer_usage id type w = do
    item ← get w.index_buffers id
    index_buffers ← put w.index_buffers id (record item { usage = type })
    ok (record w { index_buffers = index_buffers })

  pub set_constant_buffer_usage : ℕ → UsageType → RenderDevice S → Run (RenderDevice S)
  set_constant_buffer_usage id type w = do
    item ← get w.const_buffers id
    const_buffers ← put w.const_buffers id (record item { usage = type })
    ok (record w { const_buffers = const_buffers })

  pub create_texture :
      UsageType → ℕ → ℕ → ℕ → ℕ → List ℕ → ℕ → RenderDevice S → Run (ℕ × RenderDevice S)
  create_texture type width height mips format buffer buffer_size w = do
    assert (ltb 0 format && ltb format (length texture_formats))
    d3d_format ← entry texture_formats format
    assert (is_power_of_2 width)
    assert (is_power_of_2 height)
    (texture_id, textures) ← allocate_id ids16 texture_init w.textures
    assert (not (texture_id == no_id16))
    let usage = if is_dynamic type then usage_dynamic_only else usage_none
    (texture, w1) ←
        invoke direct3d (create_texture_call width height mips usage d3d_format (pool_of type)) w
    textures' ← put textures texture_id (record {
      texture = texture;
      usage = usage_invalid;
      format = d3d_format;
      width = width;
      height = height;
      mips = mips;
    })
    w2 ←
        fill_created (set_texture_usage texture_id)
          (fill_texture direct3d texture_id buffer buffer_size) buffer_size type
          (record w1 { textures = textures' })
    ok (texture_id, w2)

  -- CreateVertexBuffer under the id that it has, in the table that has it
  pub new_vertex_buffer :
      UsageType
      → ℕ
      → ℕ
      → List ℕ
      → ℕ
      → ℕ
      → DataArray VertBuffData
      → RenderDevice S
      → Run (ℕ × RenderDevice S)
  new_vertex_buffer type stride count buffer buffer_size vert_id vertex_buffers w = do
    (vertex_buffer, w1) ←
        invoke direct3d
          (create_vertex_buffer_call (word32 (stride * count)) (write_usage_of type) (pool_of type))
          w
    vertex_buffers' ← put vertex_buffers vert_id (record {
      vertex_buffer = vertex_buffer;
      usage = usage_invalid;
      stride = stride;
      total_count = count;
      count = 0;
    })
    w2 ←
        fill_created (set_vertex_buffer_usage vert_id)
          (fill_vertex_buffer direct3d vert_id count buffer buffer_size 0) buffer_size type
          (record w1 { vertex_buffers = vertex_buffers' })
    ok (vert_id, w2)

  pub create_vertex_buffer :
      UsageType → ℕ → ℕ → List ℕ → ℕ → RenderDevice S → Run (ℕ × RenderDevice S)
  create_vertex_buffer type stride count buffer buffer_size w = do
    (vert_id, vertex_buffers) ← allocate_id ids16 vert_buff_init w.vertex_buffers
    assert (not (vert_id == no_id16))
    new_vertex_buffer type stride count buffer buffer_size vert_id vertex_buffers w

  -- CreateIndexBuffer under the id that it has, in the table that has it
  pub new_index_buffer :
      UsageType
      → ℕ
      → List ℕ
      → ℕ
      → ℕ
      → DataArray IndexBuffData
      → RenderDevice S
      → Run (ℕ × RenderDevice S)
  new_index_buffer type count buffer buffer_size indx_id index_buffers w = do
    (index_buffer, w1) ←
        invoke direct3d
          (create_index_buffer_call (word32 (count * 2)) (write_usage_of type) (pool_of type)) w
    index_buffers' ← put index_buffers indx_id (record {
      index_buffer = index_buffer;
      usage = usage_invalid;
      total_count = count;
      count = 0;
    })
    w2 ←
        fill_created (set_index_buffer_usage indx_id)
          (fill_index_buffer direct3d indx_id count buffer buffer_size 0 0) buffer_size type
          (record w1 { index_buffers = index_buffers' })
    ok (indx_id, w2)

  pub create_index_buffer : UsageType → ℕ → List ℕ → ℕ → RenderDevice S → Run (ℕ × RenderDevice S)
  create_index_buffer type count buffer buffer_size w = do
    (indx_id, index_buffers) ← allocate_id ids16 index_buff_init w.index_buffers
    assert (not (indx_id == no_id16))
    new_index_buffer type count buffer buffer_size indx_id index_buffers w

  pub create_constant_buffer :
      UsageType → ℕ → List ℕ → ℕ → RenderDevice S → Run (ℕ × RenderDevice S)
  create_constant_buffer type size buffer buffer_size w = do
    (buff_id, const_buffers) ← allocate_id ids16 const_buff_init w.const_buffers
    assert (not (buff_id == no_id16))
    assert (not (size % 16 == 0))
    (allocated_data, w1) ← allocate_memory size w
    const_buffers' ←
        put const_buffers buff_id
          (record { buffer_data = some allocated_data; usage = usage_invalid; size = size })
    w2 ←
        fill_created (set_constant_buffer_usage buff_id)
          (fill_constant_buffer buff_id buffer buffer_size) buffer_size type
          (record w1 { const_buffers = const_buffers' })
    ok (buff_id, w2)
