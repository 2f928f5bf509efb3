-- ===== src/Lib.antt =====
-- droidmirror shows an Android device's screen on a host and sends the host's input back. A server
-- on the device (crates/server) encodes the screen and injects input; a host (crates/native,
-- crates/web) runs the core in crates/client; crates/proto is the wire format between them, and
-- crates/transport carries it over ADB. This library models the parts that decide what is sent,
-- what is accepted and what is done with it.
--
-- How the parts meet. The server's stream is a raw handshake, then frames of 4 bytes of length, a
-- tag and a payload; commands to the server are frames of the same form without a handshake. Both
-- readers put what arrives into a buffer and take whole frames off its front, so both are compared
-- with one contract, `frames` of Proto/Frames: a list of messages, and bytes that wait or an error.
--
-- - Base: names passed on and shared. Native numbers, lists, `Result` with `?` as bind, bytes and
--   byte order, UTF-8, text of `format!`, integers. Base/Float is `f32` as an interface; nothing
--   is assumed of it but the saturation of casts, where a theorem asks for that. Base/TestFloat is
--   an instance to run it with.
-- - Proto: crates/proto/src/lib.rs. Types has the constants, `Codec`, `Handshake`, `Message`,
--   `ProtoError`; Encode `Message::encode`, `encode_payload`, `encode_frame`; Decode
--   `decode_payload` (a function for each arm) and `try_decode_frame`; Handshake
--   `encode_handshake` and `try_decode_handshake`; Scale the fixed-point scales; AnnexB
--   `to_annex_b`, and `csd_annex_b` of crates/server/src/annexb.rs. IsTyped says what the Rust
--   field types say of values. RoundTrip, Stream, Typing, Prefix, Fits, Frames, AnnexB/Avcc and
--   AnnexB/Convert prove.
-- - Client: crates/client/src/lib.rs. State has `Client` and its plain operations, Receive
--   `on_bytes`, Send the commands and `map_to_device`. A method gives the new client and what it
--   pushed to `out`. Handle, Chunks, Session, Video and Commands prove.
-- - Server: crates/server/src. Control has the traits `Inject` and `EncoderCtrl` as records over a
--   state, `apply_message`, `notches`, `ControlDemux::push`, and the encoder settings of
--   android/capture.rs; Size `fit_max_size`; Args `parse_server_args`; Keys keys.rs; Touch
--   inject.rs; Uinput the events that android/uinput.rs writes; Net android/net.rs; Capture
--   android/capture.rs over an interface of the Java calls; Session android/run.rs, in
--   Session/Opening up to the loop. Their child modules prove. Demux, Kernel, Codes, Typing and
--   Even prove; Kernel and Typing read the events independently, as multitouch slots and as keys.
-- - Adb: crates/transport/src/adb. Protocol is protocol.rs; Packets has the trait `AdbIo` as a
--   record over the transport's state, its laws, `write_packet` and `read_packet`; Connect is
--   `handshake` of client.rs; Streams its `Shared` state, `reader_loop`, and what `open_stream`,
--   `write`, `read` and `close_stream` do before and after they wait. RoundTrip, Exchange, Login,
--   Keys, Reads, Ends and Delivery prove; Pipe is a transport in memory that has the laws. Sync is
--   `push` and `shell` of client.rs and server.rs, over the streams of either; Sync/Received is
--   the device's reading of a push. Write is the loop of `write` of client.rs. Daemon is
--   server.rs: requests and answers, in Daemon/Serials the list of devices and the choice among
--   them, in Daemon/Streams its streams with `push` over them, in Daemon/Facade `connect` and the
--   fallback of `connect_usb` in crates/transport/src/lib.rs.
-- - Native: crates/native/src. Nals has `start_codes`, `nals`, `sps_pps` and `avcc_sample` of
--   capture.rs, Mp4 its `Mp4Rec`, with Mp4/Samples. Of main.rs, Codes has the key tables, Window
--   `HostCmd` and `App`, Window/Events the handlers of window events, Launch `launch_command` and
--   `open_retry`, Host `session`. Spans, Window/Passive, Window/Touches, Launch/Launched and
--   Host/Recording prove.
-- - Mirror: the composition. Shown reads what a server session sends with the client core; Fake is
--   a phone to run it with.
--
-- Numbers are native and wrap where the source casts; a value is in the range of its type where a
-- theorem says so. A text is its UTF-8 bytes.
--
-- Fuel. The loops of `on_bytes` and `push` run on the length of the buffer: a frame takes 5 bytes
-- at least, and both are proved equal to `frames`, which does not depend on fuel beyond that.
-- `avcc_loop` and `scan` run on the length of the data: a turn takes 5 bytes, or 1. `chunks_from`
-- runs on the length of the data: a chunk has a byte. `handshake_loop` gives `none` when it runs
-- out; with a device that asks with some tokens, a turn for each and one more are enough. In the
-- source a deadline of 60 seconds bounds it.
--
-- `handshake` of a transport with the laws ends within its bytes. `write_all` runs on fuel: where the
-- peer reads on, a round for each byte and for each delay is enough. The loops that read the answer of
-- a push and the output of a shell run on fuel, a read each. A session's loop runs for a number of
-- rounds, any number.
--
-- Not modelled: painting, GPU, decoders, and the PNG and GIF writers of crates/native; the bindings of
-- crates/web; the SDK injector and the power control of crates/server; the ioctl calls that set a
-- uinput device up; RSA keys, USB, and the task that pumps a socket of the ADB server in
-- crates/transport. They call the system or libraries. Sockets, MediaCodec, the virtual display, the
-- MP4 writer and the decoder's channel are interfaces.
--
-- The tasks of an ADB connection interleave at their waits: a wait's outcome is an argument
-- (`Wait`), and an operation is its part before and its part after. The clock, the key's signature
-- and `from_utf8_lossy` are arguments of the ADB handshake. The texts of `AdbError::Protocol` are a
-- data type.
pub mod Base
pub mod Proto
pub mod Client
pub mod Server
pub mod Adb
pub mod Native
pub mod Mirror
