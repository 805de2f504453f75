-- ===== src/RenderDevice/Dx9/Creates/Surfaces.antt =====
-- CreateRenderTarget stores the surface under the id of the texture.
use yengine.Base.{
  ℕ, ◌≡◌, ◌≢◌, refl, sym, ◌==◌, ok, ok-bind, ok-injective, Bool-cases, inl, inr, ap, ◌∙◌,
  Returns-value, none, some, ==_refl, eq→==, ◌<◌, length, if◌then◌else◌, true, false, fault-ne-ok,
}
use yengine.RenderDevice.DataArray.{DataArray, is_used, get, put, allocate_id}
use yengine.RenderDevice.DataArray.Table.{IsTable, view}
use yengine.RenderDevice.DataArray.Allocation.{allocate_id-view}
use yengine.RenderDevice.DataArray.Writes.{view-get}
use yengine.RenderDevice.DataArray.Items.{get-put, get-put_ne}
use yengine.RenderDevice.Dx9.{
  RenderDevice, D3d, SurfaceData, TextureData, texture_init, surface_init, no_id8, no_id16, entry,
  texture_formats, invoke, D3dFormat, format_r32f, create_texture_call, get_surface_level,
  usage_render_target, pool_default, usage_system,
}
use yengine.RenderDevice.Dx9.Creates.{create_render_target, new_render_target, ids8, ids16}

true-false : true ≡ false → ⊥
true-false h = cc

module _ {S : Type 0} (direct3d : D3d S) where
  -- The tables that a new render target leaves.
  pub record IsMisplaced (surfaces : DataArray SurfaceData) (t s id : ℕ) (w' : RenderDevice S)
      : Type 0 where
    pub answer : id ≡ s
    pub kept : get w'.surfaces s ≡ get surfaces s
    pub pointer : ℕ
    pub stored : get w'.surfaces t ≡ ok (record { surface = pointer; texture_id = t })

  new_render_target-IsMisplaced :
      (width height : ℕ) (format : D3dFormat) (t s id : ℕ) (textures : DataArray TextureData)
      (surfaces : DataArray SurfaceData) (w w' : RenderDevice S)
      → t ≢ s
      → new_render_target direct3d width height format t textures s surfaces w ≡ ok (id, w')
      → IsMisplaced surfaces t s id w'
  unfolding new_render_target
  new_render_target-IsMisplaced width height format t s id textures surfaces w w' ne h =
      let ((texture, w1), e1, r1) =
        ok-bind
          (invoke direct3d
            (create_texture_call width height 1 usage_render_target format pool_default) w)
          _ h in
      let (textures', e2, r2) =
        ok-bind
          (put textures t (record {
            texture = texture;
            usage = usage_system;
            format = format;
            width = width;
            height = height;
            mips = 1;
          }))
          _ r1 in
      let ((surface, w2), e3, r3) = ok-bind (invoke direct3d (get_surface_level texture) w1) _ r2 in
      let (surfaces', e4, r4) =
        ok-bind (put surfaces t (record { surface = surface; texture_id = t })) _ r3 in
      let out = ok-injective _ _ r4 in
      let same = ap (λ (o : ℕ × RenderDevice S). o.1.surfaces) out in
      record {
        answer = sym (ap (λ (o : ℕ × RenderDevice S). o.0) out);
        kept = ap (λ a. get a s) (sym same) ∙ get-put_ne surfaces surfaces' t s _ e4 ne;
        pointer = surface;
        stored = ap (λ a. get a t) (sym same) ∙ get-put surfaces surfaces' t _ e4;
      }

  fresh_surface :
      (a surfaces : DataArray SurfaceData) (s : ℕ)
      → allocate_id ids8 surface_init a ≡ ok (s, surfaces)
      → IsTable ids8 a
      → s ≢ no_id8
      → get surfaces s ≡ ok surface_init
  fresh_surface a surfaces s es table ne =
      let (_, _, new, _) =
        Returns-value
          (λ (out : ℕ × DataArray SurfaceData).
            IsTable ids8 out.1
            × (out.0 ≢ no_id8 → view a out.0 ≡ none)
            × (out.0 ≢ no_id8
                → (j : ℕ) → view out.1 j ≡ (if out.0 == j then some surface_init else view a j))
            × (out.0 ≡ no_id8
                → (j : ℕ) → (view out.1 j ≡ view a j) × (j < length a.used → is_used a j ≡ true)))
          (allocate_id-view ids8 surface_init a table refl) es in
      (view-get surfaces s surface_init (new ne s ∙ rw (==_refl s) refl)).1

  -- Where CreateRenderTarget of the second pixel format returns, and the two ids that it allocated,
  -- from a table of surfaces, differ, the id that it answers leads to a surface as Init leaves it,
  -- and its surface stands under the id of its texture.
  pub create_render_target_misplaced :
      (width height t s id : ℕ) (textures : DataArray TextureData)
      (surfaces : DataArray SurfaceData) (w w' : RenderDevice S)
      → allocate_id ids16 texture_init w.textures ≡ ok (t, textures)
      → allocate_id ids8 surface_init w.surfaces ≡ ok (s, surfaces)
      → IsTable ids8 w.surfaces
      → t ≢ s
      → create_render_target direct3d width height 1 w ≡ ok (id, w')
      → (get w'.surfaces id ≡ ok surface_init)
        × ((pointer : ℕ) × (get w'.surfaces t ≡ ok (record { surface = pointer; texture_id = t })))
  unfolding create_render_target entry texture_formats
  create_render_target_misplaced width height t s id textures surfaces w w' et es table ne h =
      elim (Bool-cases (t == no_id16)) [
        | inl e ↦ absurd (fault-ne-ok (rw (et, e) at h))
        | inr e ↦ elim (Bool-cases (s == no_id8)) [
          | inl f ↦ absurd (fault-ne-ok (rw (et, e, es, f) at h))
          | inr f ↦
              let m =
                new_render_target-IsMisplaced width height format_r32f t s id textures surfaces w w'
                  ne (rw (et, e, es, f) at h) in
              (
                ap (λ i. get w'.surfaces i) m.answer
                    ∙ (m.kept
                        ∙ fresh_surface w.surfaces surfaces s es table
                            (λ is. true-false (sym (eq→== _ _ is) ∙ f))),
                (m.pointer, m.stored),
              )
        ]
      ]
