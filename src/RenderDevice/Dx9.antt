-- ===== src/RenderDevice/Dx9.antt =====
-- The state of yengine/render_device/render_device_dx9.cpp: the tables of resources, and the calls of
-- Direct3D 9, which is a parameter.
pub mod Fills
pub mod Creates
pub mod Releases
pub mod Activations
pub mod Draws
pub mod Example
mod Tests
use yengine.Base.{
  ℕ, zero, suc, ◌+◌, ◌*◌, ◌≤◌, Bool, true, false, ◌&&◌, List, [], ◌∷◌, Option, none, some, leb, ltb,
  ◌==◌, if◌then◌else◌, length, get_elem?, Run, ok, fault, out_of_range, ◌>>=◌, ◌>>◌, assert, add64,
}
use yengine.RenderDevice.DataArray.{DataArray, is_used, get}

-- enum UsageType
pub data UsageType : Type 0 where
  usage_invalid usage_immutable usage_static usage_dynamic usage_system : UsageType

-- D3DFORMAT, D3DUSAGE, D3DPOOL, the flags of a lock, D3DPRIMITIVETYPE and the sampler D3DDMAPSAMPLER of
-- Direct3D 9
pub data D3dFormat : Type 0 where
  format_unknown format_a8r8g8b8 format_r32f : D3dFormat

pub data D3dUsage : Type 0 where
  usage_none usage_render_target usage_dynamic_only usage_write_only usage_dynamic_write_only :
      D3dUsage

pub data D3dPool : Type 0 where
  pool_default pool_system_mem : D3dPool

pub data LockFlags : Type 0 where
  lock_none lock_discard lock_no_overwrite : LockFlags

pub data D3dPrimitive : Type 0 where
  point_list line_list line_strip triangle_list triangle_strip triangle_fan force_dword :
      D3dPrimitive

pub data D3dRenderState : Type 0 where
  src_blend dest_blend blend_op separate_alpha_blend_enable : D3dRenderState

abbrev pub dmap_sampler : ℕ
dmap_sampler = 256

abbrev pub vertex_texture_sampler0 : ℕ
vertex_texture_sampler0 = 257

-- kTextureFormats
pub texture_formats : List D3dFormat
texture_formats = format_a8r8g8b8 ∷ format_r32f ∷ []

-- struct ViewPortData. A float is its 32-bit pattern.
pub record ViewPortData : Type 0 where
  pub top : ℕ
  pub left : ℕ
  pub width : ℕ
  pub height : ℕ
  pub min_z : ℕ
  pub max_z : ℕ

-- Init: 0.0f and 1.0f
pub view_port_init : ViewPortData
view_port_init = record { top = 0; left = 0; width = 0; height = 0; min_z = 0; max_z = 0x3f80_0000 }

-- struct RenderBlendState; an enum is the number of its value.
pub record RenderBlendState : Type 0 where
  pub source : ℕ
  pub dest : ℕ
  pub blend_op_of : ℕ
  pub alpha_source : ℕ
  pub alpha_dest : ℕ
  pub alpha_blend_op : ℕ
  pub render_target_mask : ℕ

-- struct SamplerState
pub record SamplerState : Type 0 where
  pub filter : ℕ
  pub address_mode_u : ℕ
  pub address_mode_v : ℕ
  pub address_mode_w : ℕ

-- struct TextureData. A pointer to an object of Direct3D is a number, 0 for NULL.
pub record TextureData : Type 0 where
  pub texture : ℕ
  pub usage : UsageType
  pub format : D3dFormat
  pub width : ℕ
  pub height : ℕ
  pub mips : ℕ

pub texture_init : TextureData
texture_init = record {
  texture = 0;
  usage = usage_invalid;
  format = format_unknown;
  width = 0;
  height = 0;
  mips = 0;
}

-- struct SurfaceData, where static_cast<TextureID>(-1) is no texture
pub record SurfaceData : Type 0 where
  pub surface : ℕ
  pub texture_id : ℕ

abbrev pub no_id16 : ℕ
no_id16 = 0xffff

abbrev pub no_id8 : ℕ
no_id8 = 0xff

pub surface_init : SurfaceData
surface_init = record { surface = 0; texture_id = no_id16 }

-- struct VertexDeclElement; the type and the usage are the numbers of their values.
pub record VertexDeclElement : Type 0 where
  pub stream_num : ℕ
  pub element_offset : ℕ
  pub instance_divisor : ℕ
  pub element_type : ℕ
  pub element_usage : ℕ

-- struct VertexDeclData
pub record VertexDeclData : Type 0 where
  pub decl : ℕ
  pub num_streams : ℕ
  pub stream_divisors : List ℕ

pub vertex_decl_init : VertexDeclData
vertex_decl_init = record { decl = 0; num_streams = 0; stream_divisors = 0 ∷ 0 ∷ [] }

-- struct VertBuffData
pub record VertBuffData : Type 0 where
  pub vertex_buffer : ℕ
  pub usage : UsageType
  pub stride : ℕ
  pub total_count : ℕ
  pub count : ℕ

pub vert_buff_init : VertBuffData
vert_buff_init = record {
  vertex_buffer = 0;
  usage = usage_invalid;
  stride = 0;
  total_count = 0;
  count = 0;
}

-- struct IndexBuffData
pub record IndexBuffData : Type 0 where
  pub index_buffer : ℕ
  pub usage : UsageType
  pub total_count : ℕ
  pub count : ℕ

pub index_buff_init : IndexBuffData
index_buff_init = record { index_buffer = 0; usage = usage_invalid; total_count = 0; count = 0 }

-- struct ConstBuffData; the data has an offset in gMemory, none for NULL.
pub record ConstBuffData : Type 0 where
  pub buffer_data : Option ℕ
  pub usage : UsageType
  pub size : ℕ

pub const_buff_init : ConstBuffData
const_buff_init = record { buffer_data = none; usage = usage_invalid; size = 0 }

-- The calls of Direct3D. A lock gives the address of the locked memory; `store` is what is written
-- there, in 16-bit words or bytes, until the unlock.
pub data D3dCall : Type 0 where
  create_texture_call : ℕ → ℕ → ℕ → D3dUsage → D3dFormat → D3dPool → D3dCall
  get_surface_level : ℕ → D3dCall
  create_vertex_declaration_call : List VertexDeclElement → D3dCall
  create_vertex_shader_call create_pixel_shader_call : List ℕ → D3dCall
  create_vertex_buffer_call : ℕ → D3dUsage → D3dPool → D3dCall
  create_index_buffer_call : ℕ → D3dUsage → D3dPool → D3dCall
  lock_rect : ℕ → ℕ → LockFlags → D3dCall
  lock : ℕ → ℕ → ℕ → LockFlags → D3dCall
  store : ℕ → List ℕ → D3dCall
  unlock release_call : ℕ → D3dCall
  set_viewport : ViewPortData → D3dCall
  set_render_state : D3dRenderState → ℕ → D3dCall
  set_render_target : ℕ → ℕ → D3dCall
  set_vertex_declaration set_vertex_shader set_pixel_shader set_indices : ℕ → D3dCall
  set_stream_source_freq : ℕ → ℕ → D3dCall
  set_sampler_states : ℕ → SamplerState → D3dCall
  set_texture : ℕ → ℕ → D3dCall
  set_stream_source : ℕ → ℕ → ℕ → D3dCall
  set_vertex_shader_constant set_pixel_shader_constant : ℕ → Option ℕ → ℕ → D3dCall
  draw_primitive_call : D3dPrimitive → ℕ → ℕ → D3dCall
  draw_indexed_primitive_call : D3dPrimitive → ℕ → ℕ → ℕ → ℕ → D3dCall
  begin_scene end_scene present_call : D3dCall

-- An int, as in kPrimitiveDrawPoints: `subtract n` is -(n + 1).
pub data DrawPoints : Type 0 where
  divide_by subtract : ℕ → DrawPoints

-- The global variables, and the state `S` of Direct3D
pub record RenderDevice (S : Type 0) : Type 0 where
  pub d3d : S
  pub memory_size : ℕ
  pub used_memory : ℕ
  pub width : ℕ
  pub height : ℕ
  pub view_ports : DataArray ViewPortData
  pub render_blend_states : DataArray RenderBlendState
  pub sampler_states : DataArray SamplerState
  pub textures : DataArray TextureData
  pub surfaces : DataArray SurfaceData
  pub vert_decls : DataArray VertexDeclData
  pub vert_shaders : DataArray ℕ
  pub pixel_shaders : DataArray ℕ
  pub vertex_buffers : DataArray VertBuffData
  pub index_buffers : DataArray IndexBuffData
  pub const_buffers : DataArray ConstBuffData
  pub back_buffer_render_target : ℕ
  pub activated_draw_primitive_type : D3dPrimitive
  pub draw_points : DrawPoints
  pub activated_streams : List ℕ

-- YASSERT that an id is in use, and the item under it.
pub used_item : {A : Type 0} → DataArray A → ℕ → Run A
used_item a id = do assert (is_used a id); get a id

-- A constant table at an index: an enum of a value that it does not have leads out of the table.
pub entry : {A : Type 0} → List A → ℕ → Run A
entry table i = elim (get_elem? table i) [ none ↦ fault out_of_range | some x ↦ ok x ]

-- Direct3D: whether a call returns D3D_OK, the pointer that it gives out, and what it leaves.
abbrev pub D3d : Type 0 → Type 0
D3d S = D3dCall → S → Bool × ℕ × S

module _ {S : Type 0} (direct3d : D3d S) where
  -- hr = gD3DDevice->...; YASSERT(hr == D3D_OK, ...)
  pub invoke : D3dCall → RenderDevice S → Run (ℕ × RenderDevice S)
  invoke call w = do
    let answer = direct3d call w.d3d
    assert answer.0
    ok (answer.1, record w { d3d = answer.2 })

  -- A call whose result is not looked at, such as Release of an object.
  pub invoke_void : D3dCall → RenderDevice S → RenderDevice S
  invoke_void call w = record w { d3d = (direct3d call w.d3d).2 }

-- AllocateMemory: the offset of the allocated memory
pub allocate_memory : {S : Type 0} → ℕ → RenderDevice S → Run (ℕ × RenderDevice S)
allocate_memory size w = do
  let memory_location = w.used_memory
  assert (ltb (add64 memory_location size) w.memory_size)
  ok (memory_location, record w { used_memory = add64 memory_location size })
