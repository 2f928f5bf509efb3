-- ===== src/Adb/Streams.antt =====
-- crates/transport/src/adb/client.rs: the shared state of a connection, the reader task
-- (`reader_loop`), and how `write` cuts what it sends. A map is a function; a channel is its queue
-- and whether its sender is there.
use droidmirror.Base.{
  ℕ, zero, suc, ◌+◌, ◌%◌, ◌^◌, Bool, true, false, ◌&&◌, Option, none, some, List, [], ◌∷◌, ◌++◌,
  ltb, ◌==◌, length, take, drop, max, if◌then◌else◌,
}
use droidmirror.Base.Result.{Result, ok, err, ◌>>=◌}
use droidmirror.Base.Text.{ascii}
use droidmirror.Adb.Protocol.{
  Command, open_, okay, clse, wrte, Packet, AdbError, closed, timeout, msg,
}
use droidmirror.Adb.Packets.{AdbIo, write_packet, read_packet}

-- `mpsc::channel(128)`.
abbrev pub channel_size : ℕ
channel_size = 128

pub record StreamSlot : Type 0 where
  pub remote_id : ℕ
  pub tx : Bool
  pub queue : List (List ℕ)

pub data Ack : Type 0 where
  ack_okay : (remote_id : ℕ) → Ack
  ack_closed : Ack

-- `acks` are the acknowledgements sent so far, oldest first, each with the stream that waited.
pub record Shared (S : Type 0) : Type 0 where
  pub link : S
  pub max_payload : ℕ
  pub next_local : ℕ
  pub streams : ℕ → Option StreamSlot
  pub waiters : ℕ → Bool
  pub acks : List (ℕ × Ack)

abbrev pub insert : {A : Type 0} → ℕ → A → (ℕ → A) → ℕ → A
insert k v m j = if j == k then v else m j

-- An operation on a stream, if there is one.
abbrev pub on_slot : (StreamSlot → StreamSlot) → Option StreamSlot → Option StreamSlot
on_slot g none = none
on_slot g (some slot) = some (g slot)

abbrev pub set_remote : ℕ → StreamSlot → StreamSlot
set_remote remote slot = if slot.remote_id == 0 then record slot { remote_id = remote } else slot

-- `try_send`: a full queue drops the payload.
abbrev pub deliver : List ℕ → StreamSlot → StreamSlot
deliver bytes slot =
    if slot.tx && ltb (length slot.queue) channel_size
    then record slot { queue = slot.queue ++ (bytes ∷ []) }
    else slot

abbrev pub hang_up : StreamSlot → StreamSlot
hang_up slot = record slot { tx = false }

-- `waiters.remove(&local)` and `send`.
abbrev pub answer : {S : Type 0} → ℕ → Ack → Shared S → Shared S
answer local ack sh =
    if sh.waiters local
    then record sh {
      waiters = insert local false sh.waiters;
      acks = sh.acks ++ ((local, ack) ∷ []);
    }
    else sh

abbrev pub at_stream : {S : Type 0} → ℕ → (StreamSlot → StreamSlot) → Shared S → Shared S
at_stream local g sh = record sh {
  streams = insert local (on_slot g (sh.streams local)) sh.streams;
}

-- The `match` of `reader_loop` on a packet's command.
unfoldable pub route_command :
    {S : Type 0}
    → AdbIo S
    → Command
    → (arg0 arg1 : ℕ) → List ℕ
    → Shared S
    → Result AdbError (Shared S)
route_command dev okay remote local bytes sh =
    ok (answer local (ack_okay remote) (at_stream local (set_remote remote) sh))
route_command dev wrte remote local bytes sh = do
  link' ← write_packet dev okay local remote [] sh.link
  ok (at_stream local (deliver bytes) (record sh { link = link' }))
route_command dev clse remote local bytes sh =
    ok (at_stream local hang_up (answer local ack_closed sh))
route_command dev _ remote local bytes sh = ok sh

unfoldable pub route :
    {S : Type 0} → AdbIo S → Packet → List ℕ → Shared S → Result AdbError (Shared S)
unfolding route_command
route dev pkt bytes sh = route_command dev pkt.command pkt.arg0 pkt.arg1 bytes sh

-- One turn of `reader_loop`; an error ends the task.
unfoldable pub reader_turn : {S : Type 0} → AdbIo S → Shared S → Result AdbError (Shared S)
reader_turn dev sh = do
  ((pkt, bytes), link') ← read_packet dev sh.link
  route dev pkt bytes (record sh { link = link' })

-- `data.chunks(size)`, on fuel.
unfoldable pub chunks_from : ℕ → ℕ → List ℕ → List (List ℕ)
chunks_from zero size bytes = []
chunks_from (suc fuel) size [] = []
chunks_from (suc fuel) size (b ∷ bytes) =
    take size (b ∷ bytes) ∷ chunks_from fuel size (drop size (b ∷ bytes))

-- What `write` sends, packet by packet: an empty write is one empty packet.
unfoldable pub write_chunks : (max_payload : ℕ) → List ℕ → List (List ℕ)
write_chunks max_payload [] = [] ∷ []
write_chunks max_payload (b ∷ bytes) =
    chunks_from (length (b ∷ bytes)) (max max_payload 1) (b ∷ bytes)

-- The guards of `write`: the stream is there and open.
unfoldable pub write_remote : {S : Type 0} → ℕ → Shared S → Result AdbError ℕ
write_remote local sh = elim (sh.streams local) [
  | none ↦ err closed
  | some slot ↦
      if slot.remote_id == 0 then err (msg (ascii "stream not open")) else ok slot.remote_id
]

-- What `timeout(…, ack_rx)` gives: an acknowledgement, a sender that is gone, or no answer in time.
pub data Wait : Type 0 where
  acked : Ack → Wait
  dropped : Wait
  elapsed : Wait

-- A turn of `write` up to the wait for its acknowledgement. A packet that is not written leaves the
-- waiter behind.
unfoldable pub send_chunk :
    {S : Type 0}
    → AdbIo S
    → (local remote : ℕ) → List ℕ
    → Shared S
    → Result AdbError (Unit {0}) × Shared S
send_chunk dev local remote chunk sh =
    let waiting = record sh { waiters = insert local true sh.waiters } in
    elim (write_packet dev wrte local remote chunk sh.link) [
      | err e ↦ (err e, waiting)
      | ok link' ↦ (ok tt, record waiting { link = link' })
    ]

-- The end of that turn.
unfoldable pub chunk_sent : Wait → Result AdbError (Unit {0})
chunk_sent (acked (ack_okay remote)) = ok tt
chunk_sent (acked ack_closed) = err closed
chunk_sent dropped = err closed
chunk_sent elapsed = err timeout

-- `dest` with a NUL byte at its end.
unfoldable pub open_payload : List ℕ → List ℕ
open_payload [] = 0 ∷ []
open_payload (b ∷ []) = if b == 0 then b ∷ [] else b ∷ 0 ∷ []
open_payload (b ∷ c ∷ rest) = b ∷ open_payload (c ∷ rest)

-- `open_stream` up to the wait for its acknowledgement: the new stream's number and the state.
unfoldable pub open_start :
    {S : Type 0} → AdbIo S → List ℕ → Shared S → Result AdbError ℕ × Shared S
open_start dev dest sh =
    let local = sh.next_local in
    let slot : StreamSlot = record { remote_id = 0; tx = true; queue = [] } in
    let waiting = record sh {
      next_local = (local + 1) % 2 ^ 32;
      streams = insert local (some slot) sh.streams;
      waiters = insert local true sh.waiters;
    } in
    elim (write_packet dev open_ local 0 (open_payload dest) sh.link) [
      | err e ↦ (err e, waiting)
      | ok link' ↦ (ok local, record waiting { link = link' })
    ]

-- `open_stream` after the wait.
unfoldable pub open_finish : {S : Type 0} → ℕ → Wait → Shared S → Result AdbError ℕ × Shared S
open_finish local (acked (ack_okay remote)) sh =
    (ok local, at_stream local (λ slot. record slot { remote_id = remote }) sh)
open_finish local (acked ack_closed) sh =
    (err closed, record sh { streams = insert local none sh.streams })
open_finish local dropped sh = (err closed, sh)
open_finish local elapsed sh = (
  err timeout,
  record sh { waiters = insert local false sh.waiters; streams = insert local none sh.streams },
)

-- `close_stream` up to its wait, whose outcome is ignored; so is a packet that is not written.
unfoldable pub close_start : {S : Type 0} → AdbIo S → ℕ → Shared S → Shared S
close_start dev local sh = elim (sh.streams local) [
  | none ↦ sh
  | some slot ↦
      let waiting = record sh {
        streams = insert local none sh.streams;
        waiters = insert local true sh.waiters;
      } in
      elim (write_packet dev clse local slot.remote_id [] sh.link) [
        | err e ↦ waiting
        | ok link' ↦ record waiting { link = link' }
      ]
]

-- `recv` on a queue: `ok none` while it waits for a payload.
abbrev pub recv : StreamSlot → List (List ℕ) → Result AdbError (Option (List ℕ × StreamSlot))
recv slot (bytes ∷ rest) = ok (some (bytes, record slot { queue = rest }))
recv slot [] = if slot.tx then ok none else err closed

-- `read`: a stream that is not there is closed.
unfoldable pub read_stream :
    {S : Type 0} → ℕ → Shared S → Result AdbError (Option (List ℕ × StreamSlot))
read_stream local sh = elim (sh.streams local) [
  | none ↦ err closed
  | some slot ↦ recv slot slot.queue
]
