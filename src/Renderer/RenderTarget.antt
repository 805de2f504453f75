-- ===== src/Renderer/RenderTarget.antt =====
-- class RenderTarget of yengine/renderer/render_target.h and render_target.cpp.
use yengine.Base.{ℕ, Bool, true, false, not, if◌then◌else◌, Run, ok, ◌>>=◌}
use yengine.Renderer.Dimensions.{DimensionType, Floats, get_dimension_value}
use yengine.Renderer.RenderDeviceState
use yengine.Renderer.RenderDeviceState.{RenderDeviceState, Slot}
use yengine.Renderer.Resources.{Resources, select, store_id, release_one, release_ids}

-- The arguments of CreateRenderTarget
pub record TargetData : Type 0 where
  pub width : ℕ
  pub height : ℕ
  pub format : ℕ

pub record RenderTarget : Type 0 where
  pub width : ℕ
  pub height : ℕ
  pub width_type : DimensionType
  pub height_type : DimensionType
  pub format : ℕ
  pub dirty : Bool
  pub active_index : Bool
  pub render_target_ids : ℕ × ℕ

-- RenderTarget(...), of what `shape` has but for its ids
pub construct : ℕ → RenderTarget → RenderTarget
construct none_id shape = record shape {
  dirty = true;
  active_index = false;
  render_target_ids = (none_id, none_id);
}

-- SetRenderTarget, where `shape` has the new values
pub set_render_target : RenderTarget → RenderTarget → RenderTarget
set_render_target shape r = record r {
  format = shape.format;
  width = shape.width;
  height = shape.height;
  width_type = shape.width_type;
  height_type = shape.height_type;
  dirty = true;
}

-- The values for a frame buffer of this width and height
pub target_of : Floats → ℕ × ℕ → RenderTarget → TargetData
target_of floats (frame_width, frame_height) r = record {
  width = get_dimension_value floats frame_width r.width_type r.width;
  height = get_dimension_value floats frame_height r.height_type r.height;
  format = r.format;
}

module _ {D : Type 0} (device : Resources TargetData D) where
  open device use {none_id, create}

  -- The ids are released, and kept.
  pub release : RenderTarget → D → Run (RenderTarget × D)
  release r d = do d' ← release_ids device r.render_target_ids d; ok (record r { dirty = true }, d')

  -- The part of Activate that runs where the target is dirty; `frame` is what
  -- GetFrameBufferDimensions gives.
  pub prepare : Floats → ℕ × ℕ → RenderTarget → D → Run (RenderTarget × D)
  prepare floats frame r d = do
    let index = not r.active_index
    d1 ← release_one device (select index r.render_target_ids) d
    (id, d2) ← create (target_of floats frame r) d1
    ok (
      record r {
        dirty = false;
        active_index = index;
        render_target_ids = store_id index id r.render_target_ids;
      },
      d2,
    )

  pub activate :
      Floats
      → ℕ × ℕ
      → (Slot → ℕ → D → Run D)
      → RenderTarget
      → ℕ
      → RenderDeviceState
      → D
      → Run (RenderTarget × RenderDeviceState × D)
  activate floats frame tell r target s d = do
    (r', d1) ← (if r.dirty then prepare floats frame r d else ok (r, d))
    (s', d2) ←
        RenderDeviceState.activate_render_target tell s d1 target
          (select r'.active_index r'.render_target_ids)
    ok (r', s', d2)
