-- ===== src/Saa.antt =====
-- The `samp.saa` archive reader (reimpl/src/archive/saa.c, reimpl/include/sampdll/archive/saa.h).
pub mod Bytes
pub mod Tea
pub mod Hash
pub mod Layout
pub mod Archive
mod Tests
