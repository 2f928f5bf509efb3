-- ===== src/Client.antt =====
-- crates/client/src/lib.rs: the mirror core of both hosts, bytes in and events out. `State` has the
-- client and its plain operations, `Receive` the incoming stream, `Send` the commands. The other
-- children prove.
pub mod State
pub mod Receive
pub mod Send
pub mod Handle
pub mod Chunks
pub mod Session
pub mod Video
pub mod Commands
mod Tests
