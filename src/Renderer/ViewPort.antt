-- ===== src/Renderer/ViewPort.antt =====
-- class ViewPort of yengine/renderer/view_port.h and view_port.cpp.
pub mod Activation
pub mod OnDx9
pub mod Told
mod Tests
use yengine.Base.{ℕ, Bool, true, false, not, ◌==◌, if◌then◌else◌, Run, ok, ◌>>=◌, ◌>>◌}
use yengine.RenderDevice.Dx9.{ViewPortData}
use yengine.Renderer.Dimensions.{DimensionType, Floats, get_dimension_value}
use yengine.Renderer.RenderDeviceState
use yengine.Renderer.RenderDeviceState.{RenderDeviceState, Slot}
use yengine.Renderer.Resources.{Resources, select, store_id, release_ids}

pub record ViewPort : Type 0 where
  pub top : ℕ
  pub left : ℕ
  pub width : ℕ
  pub height : ℕ
  pub min_z : ℕ
  pub max_z : ℕ
  pub top_type : DimensionType
  pub left_type : DimensionType
  pub width_type : DimensionType
  pub height_type : DimensionType
  pub dirty : Bool
  pub active_index : Bool
  pub view_port_ids : ℕ × ℕ

-- SetViewPort, where `shape` has the new values
pub set_view_port : ViewPort → ViewPort → ViewPort
set_view_port shape v = record v {
  top = shape.top;
  left = shape.left;
  width = shape.width;
  height = shape.height;
  min_z = shape.min_z;
  max_z = shape.max_z;
  top_type = shape.top_type;
  left_type = shape.left_type;
  width_type = shape.width_type;
  height_type = shape.height_type;
  dirty = true;
}

-- ViewPort(...), of what `shape` has but for its ids
pub construct : ℕ → ViewPort → ViewPort
construct none_id shape = record shape {
  dirty = true;
  active_index = false;
  view_port_ids = (none_id, none_id);
}

-- The values for a frame buffer of this width and height
pub shape_of : Floats → ℕ × ℕ → ViewPort → ViewPortData
shape_of floats (frame_width, frame_height) v = record {
  top = get_dimension_value floats frame_height v.top_type v.top;
  left = get_dimension_value floats frame_width v.left_type v.left;
  width = get_dimension_value floats frame_width v.width_type v.width;
  height = get_dimension_value floats frame_height v.height_type v.height;
  min_z = v.min_z;
  max_z = v.max_z;
}

module _ {D : Type 0} (device : Resources ViewPortData D) where
  open device use {none_id, create}

  -- The ids are released, and kept.
  pub release : ViewPort → D → Run (ViewPort × D)
  release v d = do d' ← release_ids device v.view_port_ids d; ok (record v { dirty = true }, d')

  -- `modify` is SetViewPort of the device.
  module _ (modify : ℕ → ViewPortData → D → Run D) where
    -- The part of Activate that runs where the view port is dirty; `frame` is what
    -- GetFrameBufferDimensions gives.
    pub prepare : Floats → ℕ × ℕ → ViewPort → D → Run (ViewPort × D)
    prepare floats frame v d =
        let shape = shape_of floats frame v in
        let index = not v.active_index in
        let id = select index v.view_port_ids in
        if id == none_id
        then (do
          (new, d') ← create shape d
          ok (
            record v {
              dirty = false;
              active_index = index;
              view_port_ids = store_id index new v.view_port_ids;
            },
            d',
          ))
        else (do d' ← modify id shape d; ok (record v { dirty = false; active_index = index }, d'))

    pub activate :
        Floats
        → ℕ × ℕ
        → (Slot → ℕ → D → Run D)
        → ViewPort
        → RenderDeviceState
        → D
        → Run (ViewPort × RenderDeviceState × D)
    activate floats frame tell v s d = do
      (v', d1) ← (if v.dirty then prepare floats frame v d else ok (v, d))
      (s', d2) ←
          RenderDeviceState.activate_view_port tell s d1 (select v'.active_index v'.view_port_ids)
      ok (v', s', d2)
