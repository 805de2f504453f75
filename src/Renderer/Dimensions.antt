-- ===== src/Renderer/Dimensions.antt =====
-- GetDimensionValue of yengine/renderer/renderer_common.h and renderer_common.cpp.
use yengine.Base.{ℕ, min}

pub data DimensionType : Type 0 where
  absolute percentage : DimensionType

-- The arithmetic of floats, each given as its 32-bit pattern: (uint32_t)(frame_value * value + 0.5f),
-- and (uint32_t)value
pub record Floats : Type 0 where
  pub scaled : ℕ → ℕ → ℕ
  pub truncated : ℕ → ℕ

unfoldable pub get_dimension_value : Floats → ℕ → DimensionType → ℕ → ℕ
get_dimension_value floats frame_value percentage value = floats.scaled frame_value value
get_dimension_value floats frame_value absolute value = min frame_value (floats.truncated value)
