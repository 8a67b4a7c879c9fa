-- ===== src/Bridge.antt =====
-- The client's screen elements in reimpl/src/runtime_bridge.c: what the server's messages and the
-- player's keys do to them.
pub mod Text
pub mod Chat
pub mod ChatInput
pub mod Menu
pub mod DeathWindow
pub mod Dialog
pub mod GangZone
