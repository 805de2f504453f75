-- ===== src/Renderer/Forgotten/Tests.antt =====
-- Release on a device that allows three releases.
use yengine.Base.{ℕ, ◌+◌, ltb, List, Run, ok, ◌>>◌, assert, true, false}
use yengine.RenderDevice.Dx9.{UsageType, usage_dynamic}
use yengine.Renderer.Resources.{Resources, no_ids}
use yengine.Renderer.IndexBuffer
use yengine.Renderer.IndexBuffer.{IndexBuffer}
use yengine.Renderer.VertexBuffer
use yengine.Renderer.ShaderFloatArg
use yengine.Renderer.ShaderTextureArg
use yengine.Renderer.ShaderTextureArg.{TextureShape}
use yengine.Renderer.Forgotten.{
  Forgets, forgotten_indexes, forgotten_vertexes, forgotten_floats, forgotten_texture,
  releases-Forgets,
}

-- The device counts what was released, and fails an assertion at the fourth time.
abbrev counting : {A : Type 0} → Resources A ℕ
counting = record {
  none_id = 0xffff;
  create = λ x d. ok (d, d);
  release = λ id d. (do assert (ltb d 3); ok (d + 1));
}

abbrev index_buffers : Resources (UsageType × ℕ) ℕ
index_buffers = counting

abbrev vertex_buffers : Resources (UsageType × ℕ × ℕ) ℕ
vertex_buffers = counting

abbrev constant_buffers : Resources (UsageType × ℕ × List ℕ) ℕ
constant_buffers = counting

abbrev textures : Resources TextureShape ℕ
textures = counting

abbrev fill_index : ℕ → ℕ → List ℕ → ℕ → ℕ → ℕ → ℕ → Run ℕ
fill_index id count data_of size index_offset offset d = ok d

abbrev fill_vertex : ℕ → ℕ → List ℕ → ℕ → ℕ → ℕ → Run ℕ
fill_vertex id count data_of size offset d = ok d

abbrev fill_mip : ℕ → ℕ → List ℕ → ℕ → ℕ → Run ℕ
fill_mip id level data_of size d = ok d

abbrev buffer : IndexBuffer
buffer = record {
  dirty = true;
  active_index = false;
  usage_type = usage_dynamic;
  total_count = 6;
  fill_count = 3;
  index_buffer_ids = (4, 0xffff);
}

releases-Forgets_example :
    Forgets index_buffers
      (IndexBuffer.release index_buffers fill_index)
      (λ b. b.index_buffer_ids)
      (forgotten_indexes (no_ids index_buffers))
    × Forgets vertex_buffers
        (VertexBuffer.release vertex_buffers fill_vertex)
        (λ b. b.vertex_buffer_ids)
        (forgotten_vertexes (no_ids vertex_buffers))
    × Forgets constant_buffers
        (ShaderFloatArg.release constant_buffers)
        (λ a. a.constant_buffer_ids)
        (forgotten_floats (no_ids constant_buffers))
    × Forgets textures
        (ShaderTextureArg.release textures fill_mip)
        (λ a. a.texture_ids)
        (forgotten_texture (no_ids textures))
releases-Forgets_example =
    releases-Forgets index_buffers fill_index vertex_buffers fill_vertex constant_buffers textures
      fill_mip
