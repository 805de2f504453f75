-- ===== src/Renderer.antt =====
-- yengine/renderer.
pub mod RenderDeviceState
pub mod Dimensions
pub mod Resources
pub mod ViewPort
pub mod RenderTarget
pub mod VertexDecl
pub mod IndexBuffer
pub mod VertexBuffer
pub mod ShaderFloatArg
pub mod ShaderTextureArg
pub mod Forgotten
