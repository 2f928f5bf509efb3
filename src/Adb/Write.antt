-- ===== src/Adb/Write.antt =====
-- crates/transport/src/adb/client.rs: `write` of `AdbClient`, packet by packet. What the other tasks
-- of the connection do until the wait for an acknowledgement is over is an argument, `await_ack`.
pub mod Packets
use droidmirror.Base.{ℕ, List, [], ◌∷◌}
use droidmirror.Base.Result.{Result, ok, err}
use droidmirror.Adb.Protocol.{AdbError}
use droidmirror.Adb.Packets.{AdbIo}
use droidmirror.Adb.Streams.{Shared, Wait, write_chunks, write_remote, send_chunk, chunk_sent}

abbrev pub Written : Type 0 → Type 0
Written S = Result AdbError (Unit {0}) × Shared S

module _ {S : Type 0} (dev : AdbIo S) (await_ack : (local : ℕ) → Shared S → Wait × Shared S) where
  abbrev pub waited :
      (later : Shared S → Written S) → Result AdbError (Unit {0}) → Shared S → Written S
  waited later (ok u) sh = later sh
  waited later (err e) sh = (err e, sh)

  -- After `write_packet` and its `?`.
  abbrev pub chunk_written : (later : Shared S → Written S) → (local : ℕ) → Written S → Written S
  chunk_written later local (err e, sh) = (err e, sh)
  chunk_written later local (ok u, sh) =
      let (wait, sh1) = await_ack local sh in waited later (chunk_sent wait) sh1

  -- The loop over the chunks.
  unfoldable pub write_loop : (local remote : ℕ) → List (List ℕ) → Shared S → Written S
  write_loop local remote [] sh = (ok tt, sh)
  write_loop local remote (chunk ∷ chunks) sh =
      chunk_written (write_loop local remote chunks) local (send_chunk dev local remote chunk sh)

  abbrev pub with_remote : (local : ℕ) → List ℕ → Shared S → Result AdbError ℕ → Written S
  with_remote local bytes sh (err e) = (err e, sh)
  with_remote local bytes sh (ok remote) =
      write_loop local remote (write_chunks sh.max_payload bytes) sh

  unfoldable pub write : (local : ℕ) → List ℕ → Shared S → Written S
  write local bytes sh = with_remote local bytes sh (write_remote local sh)
