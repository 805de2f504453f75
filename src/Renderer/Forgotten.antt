-- ===== src/Renderer/Forgotten.antt =====
-- Release of the buffers and of the shader arguments (yengine/renderer/vertex_buffer.cpp and shader_data.cpp).
mod Tests
use yengine.Base.{ℕ, ◌≡◌, refl, false, List, Run, ok, fault, ◌>>=◌}
use yengine.RenderDevice.Dx9.{UsageType}
use yengine.Renderer.Resources.{Resources, no_ids, release_ids, clear_ids}
use yengine.Renderer.Resources.Forgetting.{with_ids, clear_ids_lem, clear_ids_none}
use yengine.Renderer.IndexBuffer
use yengine.Renderer.IndexBuffer.{IndexBuffer}
use yengine.Renderer.VertexBuffer
use yengine.Renderer.VertexBuffer.{VertexBuffer}
use yengine.Renderer.ShaderFloatArg
use yengine.Renderer.ShaderFloatArg.{ShaderFloatArg}
use yengine.Renderer.ShaderTextureArg
use yengine.Renderer.ShaderTextureArg.{ShaderTextureArg, TextureShape}

-- Release of an `X` with these ids does to the device what the release of the ids does, faults included, and
-- leaves an object without an id, whose Release then does nothing; `forgotten` is the object that it leaves.
pub record Forgets {A D X : Type 0} (device : Resources A D) (release_it : X → D → Run (X × D))
    (ids_of : X → ℕ × ℕ) (forgotten : X → X) : Type 0 where
  pub released :
      (x : X) (d : D)
      → release_it x d ≡ (release_ids device (ids_of x) d >>= λ d'. ok (forgotten x, d'))
  pub no_id : (x : X) → ids_of (forgotten x) ≡ no_ids device
  pub again : (x : X) (d : D) → release_it (forgotten x) d ≡ ok (forgotten x, d)

module _ {A D X : Type 0} (device : Resources A D) (f : ℕ × ℕ → X) where
  abbrev made : (ℕ × ℕ) × D → Run (X × D)
  made (ids, d) = ok (f ids, d)

  abbrev made_of : ℕ × ℕ → D → Run (X × D)
  made_of ids d = ok (f ids, d)

  after : (ids : ℕ × ℕ) (m : Run D) → (m >>= with_ids device ids >>= made) ≡ (m >>= made_of ids)
  after ids (ok d) = refl
  after ids (fault why) = refl

  forgets :
      (ids : ℕ × ℕ) (d : D)
      → (clear_ids device ids d >>= made) ≡ (release_ids device ids d >>= made_of (no_ids device))
  forgets ids d = rw (clear_ids_lem device ids d) (after (no_ids device) (release_ids device ids d))

-- What an object is without its ids.
abbrev pub forgotten_indexes : ℕ × ℕ → IndexBuffer → IndexBuffer
forgotten_indexes ids b = record b { index_buffer_ids = ids; dirty = false }

abbrev pub forgotten_vertexes : ℕ × ℕ → VertexBuffer → VertexBuffer
forgotten_vertexes ids b = record b { vertex_buffer_ids = ids; dirty = false }

abbrev pub forgotten_floats : ℕ × ℕ → ShaderFloatArg → ShaderFloatArg
forgotten_floats ids a = record a { constant_buffer_ids = ids }

abbrev pub forgotten_texture : ℕ × ℕ → ShaderTextureArg → ShaderTextureArg
forgotten_texture ids a = record a { texture_ids = ids }

-- On any device, Release of an index buffer, a vertex buffer and the two shader arguments does to
-- the device what releasing the two ids that are not -1 does, faults included, as Release of a view
-- port does that keeps them; where it returns, it leaves the object without an id, and Release of
-- that object returns and changes nothing.
pub releases-Forgets :
    {D : Type 0} (index_buffers : Resources (UsageType × ℕ) D)
    (fill_index : ℕ → ℕ → List ℕ → ℕ → ℕ → ℕ → D → Run D)
    (vertex_buffers : Resources (UsageType × ℕ × ℕ) D)
    (fill_vertex : ℕ → ℕ → List ℕ → ℕ → ℕ → D → Run D)
    (constant_buffers : Resources (UsageType × ℕ × List ℕ) D) (textures : Resources TextureShape D)
    (fill_mip : ℕ → ℕ → List ℕ → ℕ → D → Run D)
    → Forgets index_buffers
        (IndexBuffer.release index_buffers fill_index)
        (λ b. b.index_buffer_ids)
        (forgotten_indexes (no_ids index_buffers))
      × Forgets vertex_buffers
          (VertexBuffer.release vertex_buffers fill_vertex)
          (λ b. b.vertex_buffer_ids)
          (forgotten_vertexes (no_ids vertex_buffers))
      × Forgets constant_buffers
          (ShaderFloatArg.release constant_buffers)
          (λ a. a.constant_buffer_ids)
          (forgotten_floats (no_ids constant_buffers))
      × Forgets textures
          (ShaderTextureArg.release textures fill_mip)
          (λ a. a.texture_ids)
          (forgotten_texture (no_ids textures))
unfolding IndexBuffer.release VertexBuffer.release ShaderFloatArg.release ShaderTextureArg.release
releases-Forgets index_buffers fill_index vertex_buffers fill_vertex constant_buffers textures
      fill_mip =
    (
      record {
        released =
            λ b d. forgets index_buffers (λ ids. forgotten_indexes ids b) b.index_buffer_ids d;
        no_id = λ b. refl;
        again = λ b d. rw (clear_ids_none index_buffers d) refl;
      },
      record {
        released =
            λ b d. forgets vertex_buffers (λ ids. forgotten_vertexes ids b) b.vertex_buffer_ids d;
        no_id = λ b. refl;
        again = λ b d. rw (clear_ids_none vertex_buffers d) refl;
      },
      record {
        released =
            λ a d. forgets constant_buffers (λ ids. forgotten_floats ids a) a.constant_buffer_ids d;
        no_id = λ a. refl;
        again = λ a d. rw (clear_ids_none constant_buffers d) refl;
      },
      record {
        released = λ a d. forgets textures (λ ids. forgotten_texture ids a) a.texture_ids d;
        no_id = λ a. refl;
        again = λ a d. rw (clear_ids_none textures d) refl;
      },
    )
