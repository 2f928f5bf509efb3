-- ===== src/Adb.antt =====
-- crates/transport/src/adb: packets, the exchange that opens a connection, and the host's side of
-- its streams.
pub mod Protocol
pub mod RoundTrip
pub mod Packets
pub mod Exchange
pub mod Connect
pub mod Login
pub mod Reads
pub mod Ends
pub mod Keys
pub mod Streams
pub mod Write
pub mod Delivery
pub mod Sync
pub mod Daemon
pub mod Pipe
mod Tests
