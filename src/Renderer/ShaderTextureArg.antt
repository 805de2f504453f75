-- ===== src/Renderer/ShaderTextureArg.antt =====
-- ShaderTextureParam and ShaderTextureArg of yengine/renderer/shader_data.h and shader_data.cpp.
use yengine.Base.{
  ℕ, ◌+◌, ◌*◌, Bool, false, not, List, [], ◌∷◌, ◌==◌, if◌then◌else◌, length, Run, ok, ◌>>=◌, ◌>>◌,
  assert, word32,
}
use yengine.RenderDevice.Dx9.{UsageType, usage_invalid, entry}
use yengine.RenderDevice.Dx9.Fills.{can_fill, mip_length}
use yengine.Renderer.IndexBuffer.{usage_number}
use yengine.Renderer.RenderDeviceState
use yengine.Renderer.RenderDeviceState.{RenderDeviceState, Slot}
use yengine.Renderer.Resources.{Resources, select, store_id, clear_ids}

pub record ShaderTextureParam : Type 0 where
  pub slot : ℕ
  pub sampler_state_hash : ℕ

-- What CreateTexture takes
pub record TextureShape : Type 0 where
  pub usage_type : UsageType
  pub width : ℕ
  pub height : ℕ
  pub num_mips : ℕ
  pub format : ℕ

pub record ShaderTextureArg : Type 0 where
  pub texture_param : ShaderTextureParam
  pub sampler_state_hash : ℕ
  pub shape : TextureShape
  pub active_index : Bool
  pub sampler_state_id : ℕ
  pub texture_ids : ℕ × ℕ

pub construct : ℕ → ℕ → ShaderTextureParam → ShaderTextureArg
construct none_id no_sampler texture_param = record {
  texture_param = texture_param;
  sampler_state_hash = 0;
  shape = record { usage_type = usage_invalid; width = 0; height = 0; num_mips = 0; format = 0 };
  active_index = false;
  sampler_state_id = no_sampler;
  texture_ids = (none_id, none_id);
}

pub initialize : TextureShape → ShaderTextureArg → ShaderTextureArg
initialize shape a = record a { shape = shape }

-- kPixelFormatSize
pub pixel_format_sizes : List ℕ
pixel_format_sizes = 4 ∷ 4 ∷ []

-- The data of a mip level, with its size
pub record MipData : Type 0 where
  pub data_of : List ℕ
  pub data_size : ℕ

-- `fill_mip` is FillTextureMip: an id, a mip level, the data with its size.
module _ {D : Type 0} (device : Resources TextureShape D)
    (fill_mip : ℕ → ℕ → List ℕ → ℕ → D → Run D) where
  open device use {none_id, create}

  -- The ids are released and forgotten.
  unfoldable pub release : ShaderTextureArg → D → Run (ShaderTextureArg × D)
  release a d = do
    (ids, d') ← clear_ids device a.texture_ids d
    ok (record a { texture_ids = ids }, d')

  -- The loop over the mip levels, from level `i` on
  pub fill_levels : ℕ → ℕ → TextureShape → ℕ → List MipData → D → Run D
  fill_levels format_size id shape i [] d = ok d
  fill_levels format_size id shape i (mip ∷ mips) d = do
    let width = mip_length shape.width i
    let height = mip_length shape.height i
    assert (mip.data_size == word32 (width * height * format_size))
    d' ← fill_mip id i mip.data_of mip.data_size d
    fill_levels format_size id shape (i + 1) mips d'

  pub fill_mips : List MipData → ShaderTextureArg → D → Run (ShaderTextureArg × D)
  fill_mips mips a d = do
    assert (not (usage_number a.shape.usage_type == 0))
    assert (length mips == a.shape.num_mips)
    let index = not a.active_index
    (ids, d') ←
        (if select index a.texture_ids == none_id
          then (do (new, d1) ← create a.shape d; ok (store_id index new a.texture_ids, d1))
          else (do assert (can_fill a.shape.usage_type); ok (a.texture_ids, d)))
    format_size ← entry pixel_format_sizes a.shape.format
    d2 ← fill_levels format_size (select index ids) a.shape 0 mips d'
    ok (record a { active_index = index; texture_ids = ids }, d2)

  pub fill : List ℕ → ℕ → ShaderTextureArg → D → Run (ShaderTextureArg × D)
  fill data_of data_size = fill_mips (record { data_of = data_of; data_size = data_size } ∷ [])

  -- `sampler_state` is RenderStateCache::GetSamplerStateID.
  module _ (sampler_state : ℕ → D → Run (ℕ × D)) (tell : Slot → ℕ → D → Run D) where
    -- The id of the sampler state, asked for where the hash is not the one that it was asked for with.
    pub find_sampler : ShaderTextureArg → D → Run (ShaderTextureArg × D)
    find_sampler a d =
        if a.sampler_state_hash == a.texture_param.sampler_state_hash then ok (a, d) else do
          (id, d') ← sampler_state a.texture_param.sampler_state_hash d
          ok (
            record a {
              sampler_state_hash = a.texture_param.sampler_state_hash;
              sampler_state_id = id;
            },
            d',
          )

    pub activate_vertex_shader_texture :
        ShaderTextureArg → RenderDeviceState → D → Run (ShaderTextureArg × RenderDeviceState × D)
    activate_vertex_shader_texture a s d = do
      let id = select a.active_index a.texture_ids
      assert (not (id == none_id))
      (a', d1) ← find_sampler a d
      let slot = a.texture_param.slot
      (s1, d2) ← RenderDeviceState.activate_vertex_sampler_state tell s d1 slot a'.sampler_state_id
      (s2, d3) ← RenderDeviceState.activate_vertex_texture tell s1 d2 slot id
      ok (a', s2, d3)

    pub activate_pixel_shader_texture :
        ShaderTextureArg → RenderDeviceState → D → Run (ShaderTextureArg × RenderDeviceState × D)
    activate_pixel_shader_texture a s d = do
      let id = select a.active_index a.texture_ids
      assert (not (id == none_id))
      (a', d1) ← find_sampler a d
      let slot = a.texture_param.slot
      (s1, d2) ← RenderDeviceState.activate_pixel_sampler_state tell s d1 slot a'.sampler_state_id
      (s2, d3) ← RenderDeviceState.activate_pixel_texture tell s1 d2 slot id
      ok (a', s2, d3)
