-- ===== src/RenderDevice/Dx9/Creates/Formats.antt =====
-- What is not created: textures of the first pixel format, and constant buffers of whole registers.
use yengine.Base.{
  ℕ, ◌%◌, ◌≡◌, refl, List, ◌==◌, fault, assertion, Stops, Stops-bind, Bool-cases, inl, inr, eq→==,
}
use yengine.RenderDevice.DataArray.{allocate_id}
use yengine.RenderDevice.Dx9.{UsageType, RenderDevice, D3d, no_id16}
use yengine.RenderDevice.Dx9.Creates.{create_texture, create_render_target, create_constant_buffer}

module _ {S : Type 0} (direct3d : D3d S) where
  -- CreateTexture.
  pub creates_of_first_format :
      (type : UsageType) (width height mips size : ℕ) (buffer : List ℕ) (buffer_size : ℕ)
      (w : RenderDevice S)
      → size % 16 ≡ 0
      → (create_texture direct3d type width height mips 0 buffer buffer_size w ≡ fault assertion)
        × (create_render_target direct3d width height 0 w ≡ fault assertion)
        × Stops (create_constant_buffer direct3d type size buffer buffer_size w)
  unfolding create_texture create_render_target create_constant_buffer
  creates_of_first_format type width height mips size buffer buffer_size w whole = (
    refl,
    refl,
    Stops-bind (allocate_id _ _ w.const_buffers) _ λ (id, table) _.
        elim (Bool-cases (id == no_id16)) [
          | inl e ↦ rw e (assertion, refl)
          | inr e ↦ rw (e, eq→== _ _ whole) (assertion, refl)
        ],
  )
