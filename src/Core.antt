-- ===== src/Core.antt =====
-- yengine/core.
pub mod StringTable
