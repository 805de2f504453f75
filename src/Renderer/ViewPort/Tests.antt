-- ===== src/Renderer/ViewPort/Tests.antt =====
-- A view port of the render device of RenderDevice/Dx9/Example.
use yengine.Base.{ℕ, ◌≡◌, refl, inl, inr, true, false, arith, ok, fault, assertion}
use yengine.RenderDevice.Dx9.Fills.{set_view_port}
use yengine.RenderDevice.Dx9.{ViewPortData, view_port_init, RenderDevice, no_id8}
use yengine.RenderDevice.Dx9.Creates.{ids8}
use yengine.RenderDevice.Dx9.Example.{direct3d, world, first_used, first_used-IsTable}
use yengine.Renderer.Dimensions.{absolute, percentage, Floats}
use yengine.Renderer.RenderDeviceState
use yengine.Renderer.RenderDeviceState.{RenderDeviceState}
use yengine.Renderer.RenderDeviceState.OnDx9.{activate_dx9}
use yengine.Renderer.Resources.{Resources, Laws}
use yengine.Renderer.Resources.Ids.{Owns, release_ids-Returns}
use yengine.Renderer.ViewPort.{ViewPort, release, activate}
use yengine.Renderer.ViewPort.Activation.{release_twice}
use yengine.Renderer.ViewPort.OnDx9.{dx9_view_ports, dx9_laws}

abbrev device : Resources ViewPortData (RenderDevice ℕ)
device = dx9_view_ports direct3d

abbrev laws : Laws device set_view_port
laws = dx9_laws direct3d

-- Arithmetic that takes a pattern for the number itself, and scales by it in percent.
abbrev floats : Floats
floats = record { scaled = λ frame x. frame; truncated = λ x. x }

abbrev view_port : ViewPort
view_port = record {
  top = 0;
  left = 0;
  width = 1;
  height = 200;
  min_z = 0;
  max_z = 1;
  top_type = absolute;
  left_type = absolute;
  width_type = percentage;
  height_type = absolute;
  dirty = true;
  active_index = false;
  view_port_ids = (no_id8, no_id8);
}

-- The device and the view port when it has the first id of the table.
abbrev shown : ViewPortData
shown = record view_port_init { width = 640; height = 200 }

abbrev shown_world : RenderDevice ℕ
shown_world = record world { view_ports = first_used shown view_port_init }

abbrev shown_port : ViewPort
shown_port = record view_port { active_index = true; view_port_ids = (0, no_id8) }

shown_port-Owns : Owns laws shown_world shown_port.view_port_ids
shown_port-Owns = record {
  ready = first_used-IsTable ids8 shown view_port_init (omega arith);
  first = inr (shown, refl);
  second = inl refl;
  apart = λ e. absurd (omega arith);
}

abbrev released_world : RenderDevice ℕ
released_world = (release_ids-Returns laws shown_world shown_port.view_port_ids shown_port-Owns).0

release-run : release device shown_port shown_world ≡ ok (shown_port, released_world)
unfolding release
release-run =
    rw (release_ids-Returns laws shown_world shown_port.view_port_ids shown_port-Owns).1 refl

release_twice_example :
    (release device shown_port released_world ≡ fault assertion)
    × (activate device set_view_port floats
          (640, 480)
          (activate_dx9 direct3d)
          shown_port
          RenderDeviceState.reset
          released_world
        ≡ fault assertion)
release_twice_example =
    release_twice laws floats (640, 480) (activate_dx9 direct3d) shown_port shown_port
      RenderDeviceState.reset shown_world released_world shown_port-Owns (λ e. absurd (omega arith))
      release-run
