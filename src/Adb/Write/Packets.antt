-- ===== src/Adb/Write/Packets.antt =====
-- What a `write` of `AdbClient` puts on the wire.
use droidmirror.Base.{ℕ, ◌≡◌, List, [], ◌∷◌, ◌++◌, flatten, max, ◌⊎◌}
use droidmirror.Base.Result.{Result, ok, err}
use droidmirror.Base.Bytes.{All}
use droidmirror.Adb.Protocol.{AdbError, wrte}
use droidmirror.Adb.Packets.{AdbIo, IoLaws, write_packet}
use droidmirror.Adb.Exchange.{packet_bytes}
use droidmirror.Adb.Streams.{Shared, Wait, chunk_sent}
use droidmirror.Adb.Delivery.{IsPiece}
use droidmirror.Adb.Write.{Written}

module _ {S : Type 0} (dev : AdbIo S) (laws : IoLaws dev) (local remote : ℕ) where
  open laws use {outgoing}

  -- From the bytes `before` on, the packets of the chunks in order, each one behind the other but
  -- for what other tasks have sent since.
  abbrev pub InPackets : (chunks : List (List ℕ)) (before after : List ℕ) → Type 0
  InPackets [] before after = before ≡ after
  InPackets (chunk ∷ chunks) before after =
      (others : List ℕ) × InPackets chunks
        ((before ++ packet_bytes wrte local remote chunk) ++ others) after

  module _ (await_ack : (local : ℕ) → Shared S → Wait × Shared S) where
    -- Why a write fails: a packet that is not written, or a wait that does not give `Okay`.
    abbrev pub IsCause : AdbError → Type 0
    IsCause e =
        ((chunk : List ℕ) × (link : S) × (write_packet dev wrte local remote chunk link ≡ err e))
        ⊎ ((sh : Shared S) × (chunk_sent (await_ack local sh).0 ≡ err e))

    -- All of the chunks, or, with an error, the first ones.
    abbrev pub SendsChunks : (chunks : List (List ℕ)) (before : List ℕ) → Written S → Type 0
    SendsChunks chunks before (ok u, sh) = InPackets chunks before (outgoing sh.link)
    SendsChunks chunks before (err e, sh) =
        IsCause e
        × (done : List (List ℕ)) × (left : List (List ℕ)) × (done ++ left ≡ chunks)
        × InPackets done before (outgoing sh.link)

  module _ (await_ack : (local : ℕ) → Shared S → Wait × Shared S)
      (grows : (id : ℕ) (sh : Shared S)
        → (others : List ℕ) × (outgoing (await_ack id sh).1.link
            ≡ outgoing sh.link ++ others)) where
    -- By what `write_packet` gives.
    abbrev attempt : (waiting : Shared S) → Result AdbError S → Written S
    attempt waiting r = elim r [
      | err e ↦ (err e, waiting)
      | ok link' ↦ (ok tt, record waiting { link = link' })
    ]

-- How data is cut: one empty piece for no data; else pieces that are not empty, nor longer than the
-- connection allows.
abbrev pub IsCutOf : (max_payload : ℕ) → List ℕ → List (List ℕ) → Type 0
IsCutOf max_payload bytes chunks =
    (flatten chunks ≡ bytes)
    × ((bytes ≡ []) × (chunks ≡ [] ∷ []) ⊎ All (IsPiece (max max_payload 1)) chunks)
