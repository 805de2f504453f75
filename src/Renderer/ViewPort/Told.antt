-- ===== src/Renderer/ViewPort/Told.antt =====
-- Activate of a view port on the device of render_device_dx9.cpp.
use yengine.RenderDevice.Dx9.{RenderDevice}
use yengine.Renderer.RenderDeviceState
use yengine.Renderer.RenderDeviceState.{RenderDeviceState}
use yengine.Renderer.ViewPort.{ViewPort}
