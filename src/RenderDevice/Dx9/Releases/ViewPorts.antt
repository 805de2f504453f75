-- ===== src/RenderDevice/Dx9/Releases/ViewPorts.antt =====
-- ReleaseViewPort takes a view port out of the table.
use yengine.Base.{ℕ, ◌≡◌, refl, none, some, ◌==◌, if◌then◌else◌, fault, assertion, Returns}
use yengine.RenderDevice.DataArray.Table.{IsTable, view}
use yengine.RenderDevice.DataArray.Writes.{view-get, view-none}
use yengine.RenderDevice.DataArray.Release.{release_id-view}
use yengine.RenderDevice.Dx9.{ViewPortData, RenderDevice, D3d}
use yengine.RenderDevice.Dx9.Releases.{release_nothing, release_view_port}

module _ {S : Type 0} (direct3d : D3d S) where
  pub release_view_port-view :
      (ids id : ℕ) (shape : ViewPortData) (w : RenderDevice S)
      → IsTable ids w.view_ports
      → view w.view_ports id ≡ some shape
      → Returns (release_view_port direct3d id w) λ w'.
        IsTable ids w'.view_ports
        × ((j : ℕ) → view w'.view_ports j ≡ (if id == j then none else view w.view_ports j))
        × (w' ≡ record w { view_ports = w'.view_ports })
  unfolding release_view_port release_nothing
  release_view_port-view ids id shape w t at =
      let used = (view-get w.view_ports id shape at).0 in
      let ((done, table, w'), run, (done_true, same, t', gone)) =
        release_id-view (release_nothing direct3d) ids w.view_ports id w w shape shape t at refl in
      (record w { view_ports = table }, rw (used, run, same) refl, (t', gone, refl))

  pub release_view_port_unused :
      (ids id : ℕ) (w : RenderDevice S)
      → IsTable ids w.view_ports
      → view w.view_ports id ≡ none
      → release_view_port direct3d id w ≡ fault assertion
  unfolding release_view_port
  release_view_port_unused ids id w t at = rw (view-none ids w.view_ports id t at) refl
