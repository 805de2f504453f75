-- ===== src/Platform.antt =====
-- ycommon/platform.
pub mod FilePath
