-- ===== src/RenderDevice/Dx9/Tests.antt =====
-- The theorems about the buffers, view ports and draw calls at the render device of Example.
use yengine.Base.{
  ℕ, ◌<◌, ◌≡◌, ◌≢◌, ◌⊎◌, inl, true, [], ◌∷◌, none, some, arith, ◌==◌, if◌then◌else◌, leb, fault,
  assertion, out_of_range, division_by_zero, Returns, Stops,
}
use yengine.RenderDevice.DataArray.{is_used}
use yengine.RenderDevice.DataArray.Table.{view, IsTable}
use yengine.RenderDevice.DataArray.Setup.{unused-Marks}
use yengine.Containers.MemPool.Setup.{all_free}
use yengine.RenderDevice.Dx9.{ViewPortData, view_port_init, usage_static, no_id8}
use yengine.RenderDevice.Dx9.Example.{direct3d, world}
use yengine.RenderDevice.Dx9.Creates.{
  ids8, create_view_port, create_vertex_buffer, create_index_buffer,
}
use yengine.RenderDevice.Dx9.Creates.Filled.{create_buffers_stop}
use yengine.RenderDevice.Dx9.Creates.ViewPorts.{create_view_port-view}
use yengine.RenderDevice.Dx9.Draws.{
  draw, draw_instanced, draw_indexed, draw_indexed_instanced, activate_draw_primitive, is_zero,
}
use yengine.RenderDevice.Dx9.Draws.Faults.{draw_calls-fault}

abbrev shape : ViewPortData
shape = record view_port_init { width = 640; height = 480 }

view_ports-IsTable : IsTable ids8 world.view_ports
view_ports-IsTable = record {
  indexes = all_free 2;
  marks = unused-Marks 64 4 _ (omega arith);
  fits = omega arith;
}

create_view_port-view_example :
    (Returns (create_view_port direct3d shape world) λ (id, w').
      IsTable ids8 w'.view_ports
      × (id ≢ no_id8)
      × (view world.view_ports id ≡ none)
      × ((j : ℕ) → view w'.view_ports j ≡ (if id == j then some shape else view world.view_ports j))
      × (w' ≡ record world { view_ports = w'.view_ports }))
    ⊎ ((create_view_port direct3d shape world ≡ fault assertion)
        × ((j : ℕ) → j < 2 → is_used world.view_ports j ≡ true))
create_view_port-view_example = create_view_port-view direct3d shape world view_ports-IsTable

create_buffers_stop_example :
    Stops (create_vertex_buffer direct3d usage_static 12 3 (1 ∷ []) 36 world)
    × Stops (create_index_buffer direct3d usage_static 3 (1 ∷ []) 36 world)
create_buffers_stop_example =
    create_buffers_stop direct3d usage_static 12 3 (1 ∷ []) 36 world (omega arith) (omega arith)
      (inl (omega arith))

draw_calls-fault_example :
    (draw direct3d 0 3 world
      ≡ (if is_zero world.draw_points then fault division_by_zero else fault assertion))
    × (draw_instanced direct3d 0 3 0 1 world
        ≡ (if is_zero world.draw_points then fault division_by_zero else fault assertion))
    × Stops (draw_indexed direct3d 0 3 0 world)
    × Stops (draw_indexed_instanced direct3d 0 3 0 1 0 world)
    × (activate_draw_primitive 0 world ≡ (if leb 6 0 then fault out_of_range else fault assertion))
draw_calls-fault_example = draw_calls-fault direct3d 0 3 0 1 0 world
