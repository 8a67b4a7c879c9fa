-- ===== src/ArchiveFs/Setup.antt =====
-- What `samp_archive_fs_win32_start` of win32_archive_fs.c does before it installs the hooks.
pub mod State
pub mod Load
pub mod Verify
pub mod Game
