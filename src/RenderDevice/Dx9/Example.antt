-- ===== src/RenderDevice/Dx9/Example.antt =====
-- A render device with tables of two items each, of which the first surface is the back buffer, and a
-- Direct3D whose calls all succeed, for the tests.
use yengine.Base.{
  ℕ, zero, suc, ◌+◌, ◌<◌, ◌≡◌, refl, arith, get_or, get_elem?, some, true, false, [], ◌∷◌,
  replicate,
}
use yengine.Containers.AtomicMemPool.{value}
use yengine.Containers.AtomicMemPool.Setup.{initial, initial-Refines}
use yengine.RenderDevice.DataArray.{DataArray}
use yengine.RenderDevice.DataArray.Table.{IsTable}
use yengine.RenderDevice.DataArray.Setup.{unused}
use yengine.RenderDevice.Dx9.{
  D3d, RenderDevice, triangle_list, usage_static, view_port_init, SurfaceData, surface_init,
  texture_init, no_id16, vertex_decl_init, VertBuffData, vert_buff_init, IndexBuffData,
  index_buff_init, const_buff_init, divide_by, RenderBlendState, SamplerState,
}

-- Every call gives out the number of the calls before it, and counts.
abbrev pub direct3d : D3d ℕ
direct3d call count = (true, count, count + 1)

abbrev pub back_buffer : SurfaceData
back_buffer = record { surface = 99; texture_id = no_id16 }

abbrev pub blend_state : RenderBlendState
blend_state = record {
  source = 0;
  dest = 0;
  blend_op_of = 0;
  alpha_source = 0;
  alpha_dest = 0;
  alpha_blend_op = 0;
  render_target_mask = 0;
}

abbrev pub sampler_state : SamplerState
sampler_state = record { filter = 0; address_mode_u = 0; address_mode_v = 0; address_mode_w = 0 }

-- A table whose first item is in use.
abbrev pub first_used : {A : Type 0} → A → A → DataArray A
first_used x initial_item = record {
  pool = record (initial 64 4 (value x ∷ value initial_item ∷ [])) { used_indexes = 1 };
  used = true ∷ false ∷ [];
}

first_only : (i : ℕ) → i < 2 → get_or (true ∷ false ∷ []) i false ≡ true → i < 1
first_only zero h e = omega arith
first_only (suc zero) h e = absurd (cc)
first_only (suc (suc i)) h e = absurd (omega arith)

at_zero : (i : ℕ) → i < 1 → (P : ℕ → Type 0) → P 0 → P i
at_zero zero h P p = p
at_zero (suc i) h P p = absurd (omega arith)

pub first_used-IsTable :
    (ids : ℕ) {A : Type 0} (x initial_item : A) → 2 < ids → IsTable ids (first_used x initial_item)
first_used-IsTable ids x initial_item fits = record {
  indexes = record { free = []; used = 1; total = 2 };
  marks = record {
    pool = record {
      chain = (initial-Refines 64 4 (value x ∷ value initial_item ∷ []) (omega arith)).chain;
      below = tt;
      distinct = tt;
      used = refl;
      total = refl;
      in_total = omega arith;
      word = omega arith;
    };
    size = refl;
    marked = λ i live. at_zero i live.0 (λ j. get_or (true ∷ false ∷ []) j false ≡ true) refl;
    live = λ i h marked. (first_only i h marked, tt);
    holds = λ i live.
        at_zero i live.0
          (λ j. (y : _) × (get_elem? (value x ∷ value initial_item ∷ []) j ≡ some (value y)))
          (x, refl);
  };
  fits = fits;
}

abbrev pub none_used : {A : Type 0} → A → DataArray A
none_used x = unused 64 4 (replicate 2 (value x))

abbrev pub vertex_buffer : VertBuffData
vertex_buffer = record {
  vertex_buffer = 5;
  usage = usage_static;
  stride = 12;
  total_count = 3;
  count = 0;
}

abbrev pub index_buffer : IndexBuffData
index_buffer = record { index_buffer = 6; usage = usage_static; total_count = 3; count = 0 }

abbrev pub world : RenderDevice ℕ
world = record {
  d3d = 1;
  memory_size = 1024;
  used_memory = 0;
  width = 640;
  height = 480;
  view_ports = none_used view_port_init;
  render_blend_states = none_used blend_state;
  sampler_states = none_used sampler_state;
  textures = none_used texture_init;
  surfaces = first_used back_buffer surface_init;
  vert_decls = none_used vertex_decl_init;
  vert_shaders = none_used 0;
  pixel_shaders = none_used 0;
  vertex_buffers = first_used vertex_buffer vert_buff_init;
  index_buffers = first_used index_buffer index_buff_init;
  const_buffers = none_used const_buff_init;
  back_buffer_render_target = 0;
  activated_draw_primitive_type = triangle_list;
  draw_points = divide_by 3;
  activated_streams = 0 ∷ [];
}
