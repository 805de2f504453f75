-- ===== src/Headers.antt =====
-- ycommon/headers.
pub mod AtomicNumberMask
pub mod Macros
