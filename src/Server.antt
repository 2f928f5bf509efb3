-- ===== src/Server.antt =====
-- crates/server/src: the device server. `Control` reads the host's commands and hands them to an
-- injector and an encoder, `Keys` and `Touch` translate them to Linux input events, `Uinput` is the
-- injector over those, `Size` and `Args` are the capture size and the command line.
pub mod Net
pub mod Capture
pub mod Session
pub mod Control
pub mod Size
pub mod Args
pub mod Keys
pub mod Touch
pub mod Uinput
pub mod Demux
pub mod Kernel
pub mod Codes
pub mod Typing
pub mod Even
mod Tests
