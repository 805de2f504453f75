-- ===== src/RenderDevice/Dx9/Fills/ViewPorts.antt =====
-- SetViewPort and GetViewPort of the table of view ports.
use yengine.Base.{
  ℕ, ◌≡◌, refl, none, some, ◌==◌, if◌then◌else◌, ok, fault, assertion, Returns, ap, sym, assert,
  ok-bind, ok-injective,
}
use yengine.RenderDevice.DataArray.{is_used, put}
use yengine.RenderDevice.DataArray.Table.{IsTable, view}
use yengine.RenderDevice.DataArray.Writes.{view-get, view-none, put-view}
use yengine.RenderDevice.Dx9.{ViewPortData, RenderDevice, used_item}
use yengine.RenderDevice.Dx9.Fills.{set_view_port, get_view_port}

module _ {S : Type 0} where
  pub set_view_port-view :
      (ids id : ℕ) (old shape : ViewPortData) (w : RenderDevice S)
      → IsTable ids w.view_ports
      → view w.view_ports id ≡ some old
      → Returns (set_view_port id shape w) λ w'.
        IsTable ids w'.view_ports
        × ((j : ℕ) → view w'.view_ports j ≡ (if id == j then some shape else view w.view_ports j))
        × (w' ≡ record w { view_ports = w'.view_ports })
  unfolding set_view_port
  set_view_port-view ids id old shape w t at =
      let used = (view-get w.view_ports id old at).0 in
      let (table, run, (t', new)) = put-view ids w.view_ports id shape t used in
      (record w { view_ports = table }, rw (used, run) refl, (t', new, refl))

  pub set_view_port_unused :
      (ids id : ℕ) (shape : ViewPortData) (w : RenderDevice S)
      → IsTable ids w.view_ports
      → view w.view_ports id ≡ none
      → set_view_port id shape w ≡ fault assertion
  unfolding set_view_port
  set_view_port_unused ids id shape w t at = rw (view-none ids w.view_ports id t at) refl

  pub get_view_port-view :
      (id : ℕ) (shape : ViewPortData) (w : RenderDevice S)
      → view w.view_ports id ≡ some shape
      → get_view_port id w ≡ ok shape
  unfolding get_view_port used_item
  get_view_port-view id shape w at =
      let (used, got) = view-get w.view_ports id shape at in rw (used, got) refl

  -- Direct3D is not called.
  pub set_view_port_d3d :
      (id : ℕ) (shape : ViewPortData) (w w' : RenderDevice S)
      → set_view_port id shape w ≡ ok w'
      → w'.d3d ≡ w.d3d
  unfolding set_view_port
  set_view_port_d3d id shape w w' run =
      let (u, used, run1) = ok-bind (assert (is_used w.view_ports id)) _ run in
      let (table, written, last) = ok-bind (put w.view_ports id shape) _ run1 in
      ap (λ (w : RenderDevice S). w.d3d) (sym (ok-injective _ _ last))
