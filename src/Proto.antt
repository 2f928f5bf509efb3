-- ===== src/Proto.antt =====
-- crates/proto/src/lib.rs: the wire protocol between the device server and the hosts. `Types` has
-- the constants and data, `Encode` and `Decode` the two directions of the framed messages,
-- `Handshake` the raw prefix, and `AnnexB` the conversion of codec data. The other children prove.
pub mod Types
pub mod IsTyped
pub mod Encode
pub mod Decode
pub mod Handshake
pub mod RoundTrip
pub mod Stream
pub mod Typing
pub mod Prefix
pub mod Fits
pub mod Frames
pub mod Scale
pub mod AnnexB
pub mod Tests
