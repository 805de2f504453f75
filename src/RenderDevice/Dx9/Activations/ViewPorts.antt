-- ===== src/RenderDevice/Dx9/Activations/ViewPorts.antt =====
-- ActivateViewPort, where the view port is in use and Direct3D takes it.
use yengine.Base.{ℕ, ◌≡◌, refl, true, some, ok}
use yengine.RenderDevice.DataArray.Table.{view}
use yengine.RenderDevice.DataArray.Writes.{view-get}
use yengine.RenderDevice.Dx9.{ViewPortData, RenderDevice, D3d, used_item, invoke, set_viewport}
use yengine.RenderDevice.Dx9.Activations.{activate_view_port_id}

module _ {S : Type 0} (direct3d : D3d S) where
  pub activate_view_port_id-ok :
      (id : ℕ) (shape : ViewPortData) (w : RenderDevice S)
      → view w.view_ports id ≡ some shape
      → (direct3d (set_viewport shape) w.d3d).0 ≡ true
      → activate_view_port_id direct3d id w
        ≡ ok (record w { d3d = (direct3d (set_viewport shape) w.d3d).2 })
  unfolding activate_view_port_id used_item invoke
  activate_view_port_id-ok id shape w at takes =
      let (used, got) = view-get w.view_ports id shape at in rw (used, got, takes) refl
