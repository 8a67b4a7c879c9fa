-- ===== src/ArchiveFs.antt =====
-- The virtual file layer over GTA's imports (reimpl/src/archive/win32_archive_fs.c).
pub mod Table
pub mod Handlers
pub mod Hooks
pub mod Setup
pub mod Start
mod Tests
