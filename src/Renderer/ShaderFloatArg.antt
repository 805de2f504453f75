-- ===== src/Renderer/ShaderFloatArg.antt =====
-- ShaderFloatParam and ShaderFloatArg of yengine/renderer/shader_data.h and shader_data.cpp.
use yengine.Base.{
  ℕ, ◌+◌, ◌*◌, ◌/◌, ◌%◌, Bool, false, not, List, ◌==◌, if◌then◌else◌, Run, ok, ◌>>=◌, ◌>>◌, assert,
}
use yengine.RenderDevice.Dx9.{UsageType, usage_invalid}
use yengine.RenderDevice.Dx9.Fills.{can_fill}
use yengine.Renderer.IndexBuffer.{usage_number}
use yengine.Renderer.RenderDeviceState
use yengine.Renderer.RenderDeviceState.{RenderDeviceState, Stage}
use yengine.Renderer.Resources.{Resources, select, store_id, clear_ids}

pub record ShaderFloatParam : Type 0 where
  pub num_floats : ℕ
  pub reg : ℕ

pub record ShaderFloatArg : Type 0 where
  pub float_param : ShaderFloatParam
  pub usage_type : UsageType
  pub active_index : Bool
  pub constant_buffer_ids : ℕ × ℕ

pub construct : ℕ → ShaderFloatParam → ShaderFloatArg
construct none_id float_param = record {
  float_param = float_param;
  usage_type = usage_invalid;
  active_index = false;
  constant_buffer_ids = (none_id, none_id);
}

pub initialize : UsageType → ShaderFloatArg → ShaderFloatArg
initialize usage a = record a { usage_type = usage }

-- num_floats / 4, rounded up
pub num_regs : ShaderFloatParam → ℕ
num_regs p = p.num_floats / 4 + (if p.num_floats % 4 == 0 then 0 else 1)

-- What CreateConstantBuffer takes, and FillConstantBuffer sets, is the usage, the size and the data.
module _ {D : Type 0} (device : Resources (UsageType × ℕ × List ℕ) D) where
  open device use {none_id, create}

  -- The ids are released and forgotten.
  unfoldable pub release : ShaderFloatArg → D → Run (ShaderFloatArg × D)
  release a d = do
    (ids, d') ← clear_ids device a.constant_buffer_ids d
    ok (record a { constant_buffer_ids = ids }, d')

  -- `modify` is FillConstantBuffer.
  module _ (modify : ℕ → UsageType × ℕ × List ℕ → D → Run D) where
    pub fill : List ℕ → ℕ → ShaderFloatArg → D → Run (ShaderFloatArg × D)
    fill data_of data_size a d = do
      assert (not (usage_number a.usage_type == 0))
      assert (data_size == a.float_param.num_floats * 4)
      let index = not a.active_index
      let id = select index a.constant_buffer_ids
      (ids, d') ←
          (if id == none_id
            then (do
              (new, d1) ← create (a.usage_type, data_size, data_of) d
              ok (store_id index new a.constant_buffer_ids, d1))
            else (do
              assert (can_fill a.usage_type)
              d1 ← modify id (a.usage_type, data_size, data_of) d
              ok (a.constant_buffer_ids, d1)))
      ok (record a { active_index = index; constant_buffer_ids = ids }, d')

  module _ (tell : Stage → ℕ → ℕ → D → D) where
    pub activate_vertex_shader_arg :
        ShaderFloatArg → RenderDeviceState → D → Run (RenderDeviceState × D)
    activate_vertex_shader_arg a s d = do
      let id = select a.active_index a.constant_buffer_ids
      assert (not (id == none_id))
      RenderDeviceState.activate_vertex_float_arg tell s d a.float_param.reg
          (num_regs a.float_param) id

    pub activate_pixel_shader_arg :
        ShaderFloatArg → RenderDeviceState → D → Run (RenderDeviceState × D)
    activate_pixel_shader_arg a s d = do
      let id = select a.active_index a.constant_buffer_ids
      assert (not (id == none_id))
      RenderDeviceState.activate_pixel_float_arg tell s d a.float_param.reg (num_regs a.float_param)
          id
