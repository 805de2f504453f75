-- ===== src/RenderDevice.antt =====
-- yengine/render_device.
pub mod DataArray
pub mod Dx9
