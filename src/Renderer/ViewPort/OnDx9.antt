-- ===== src/Renderer/ViewPort/OnDx9.antt =====
-- The view ports of render_device_dx9.cpp are resources as the renderer asks for them.
use yengine.Base.{
  ℕ, ◌≡◌, sym, ◌≢◌, inl, inr, none, some, ◌==◌, if◌then◌else◌, ok, Returns-value, fault-ne-ok, ◌∙◌,
}
use yengine.RenderDevice.DataArray.Table.{IsTable, view}
use yengine.RenderDevice.Dx9.{ViewPortData, RenderDevice, D3d, no_id8}
use yengine.RenderDevice.Dx9.Creates.{ids8, create_view_port}
use yengine.RenderDevice.Dx9.Creates.ViewPorts.{create_view_port-view}
use yengine.RenderDevice.Dx9.Fills.{set_view_port}
use yengine.RenderDevice.Dx9.Fills.ViewPorts.{set_view_port-view, set_view_port_unused}
use yengine.RenderDevice.Dx9.Releases.{release_view_port}
use yengine.RenderDevice.Dx9.Releases.ViewPorts.{release_view_port-view, release_view_port_unused}
use yengine.Renderer.Resources.{Resources, Laws}

module _ {S : Type 0} (direct3d : D3d S) where
  pub created_law :
      (x : ViewPortData) (w w' : RenderDevice S) (id : ℕ)
      → IsTable ids8 w.view_ports
      → create_view_port direct3d x w ≡ ok (id, w')
      → IsTable ids8 w'.view_ports
        × (id ≢ no_id8)
        × (view w.view_ports id ≡ none)
        × ((j : ℕ) → view w'.view_ports j ≡ (if id == j then some x else view w.view_ports j))
  created_law x w w' id t run = elim (create_view_port-view direct3d x w t) [
    | inl created ↦
        let (t', ne, fresh, new, _) =
          Returns-value
            (λ (out : ℕ × RenderDevice S).
              IsTable ids8 out.1.view_ports
              × (out.0 ≢ no_id8)
              × (view w.view_ports out.0 ≡ none)
              × ((j : ℕ)
                  → view out.1.view_ports j ≡ (if out.0 == j then some x else view w.view_ports j))
              × (out.1 ≡ record w { view_ports = out.1.view_ports }))
            created run in
        (t', ne, fresh, new)
    | inr full ↦ absurd (fault-ne-ok (sym full.0 ∙ run))
  ]

  abbrev pub dx9_view_ports : Resources ViewPortData (RenderDevice S)
  dx9_view_ports = record {
    none_id = no_id8;
    create = create_view_port direct3d;
    release = release_view_port direct3d;
  }

  abbrev pub dx9_laws : Laws dx9_view_ports set_view_port
  dx9_laws = record {
    IsReady = λ w. IsTable ids8 w.view_ports;
    held = λ w. view w.view_ports;
    create_law = created_law;
    release_law = λ id x w t at.
        let (w', run, (t', gone, _)) = release_view_port-view direct3d ids8 id x w t at in
        (w', run, (t', gone));
    release_unused = λ id w t at. release_view_port_unused direct3d ids8 id w t at;
    modify_law = λ id old x w t at.
        let (w', run, (t', new, _)) = set_view_port-view ids8 id old x w t at in
        (w', run, (t', new));
    modify_unused = λ id x w t at. set_view_port_unused ids8 id x w t at;
  }
