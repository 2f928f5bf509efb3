-- ===== src/Native.antt =====
-- crates/native/src: how the recorder of the native host takes codec data apart.
pub mod Nals
pub mod Spans
pub mod Codes
pub mod Window
pub mod Launch
pub mod Host
pub mod Mp4
mod Tests
