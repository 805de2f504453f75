-- ===== src/Renderer/VertexDecl.antt =====
-- class VertexDecl of yengine/renderer/vertex_buffer.h and vertex_buffer.cpp.
use yengine.Base.{ℕ, List, ltb, ◌==◌, if◌then◌else◌, length, Run, ok, ◌>>=◌, ◌>>◌, assert}
use yengine.RenderDevice.Dx9.{VertexDeclElement}
use yengine.Renderer.RenderDeviceState
use yengine.Renderer.RenderDeviceState.{RenderDeviceState, Slot}
use yengine.Renderer.Resources.{Resources, release_one}

abbrev pub max_vertex_elements : ℕ
max_vertex_elements = 8

-- mNumVertexElements is the length of `vertex_elements`, the first entries of mVertexElements.
pub record VertexDecl : Type 0 where
  pub vertex_elements : List VertexDeclElement
  pub vertex_decl_id : ℕ

module _ {D : Type 0} (device : Resources (List VertexDeclElement) D) where
  open device use {none_id, create}

  pub construct : List VertexDeclElement → Run VertexDecl
  construct elements = do
    assert (ltb (length elements) max_vertex_elements)
    ok (record { vertex_elements = elements; vertex_decl_id = none_id })

  -- The id is released, and kept.
  pub release : VertexDecl → D → Run (VertexDecl × D)
  release v d = do d' ← release_one device v.vertex_decl_id d; ok (v, d')

  pub activate :
      (Slot → ℕ → D → Run D)
      → VertexDecl
      → RenderDeviceState
      → D
      → Run (VertexDecl × RenderDeviceState × D)
  activate tell v s d = do
    (v', d1) ←
        (if v.vertex_decl_id == none_id
          then (do (id, d') ← create v.vertex_elements d; ok (record v { vertex_decl_id = id }, d'))
          else ok (v, d))
    (s', d2) ← RenderDeviceState.activate_vertex_decl tell s d1 v'.vertex_decl_id
    ok (v', s', d2)
