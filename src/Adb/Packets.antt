-- ===== src/Adb/Packets.antt =====
-- crates/transport/src/adb/io.rs and client.rs: the interface `AdbIo`, `write_packet` and
-- `read_packet`. The transport below (TCP or USB) is an argument of the definitions.
use droidmirror.Base.{
  ℕ, ◌*◌, ◌≤◌, ◌<◌, ◌≡◌, ◌&&◌, List, [], ◌++◌, ltb, ◌==◌, not, length, take, drop, if◌then◌else◌,
}
use droidmirror.Base.Result.{Result, ok, err, ◌>>=◌, ◌>>◌, fail_if}
use droidmirror.Proto.AnnexB.{is_empty}
use droidmirror.Adb.Protocol.{
  Command, Packet, AdbError, protocol, payload_exceeds, checksum_mismatch, new, to_bytes,
  from_bytes, checksum,
}

-- `trait AdbIo`, over the state `S` of the transport.
pub record AdbIo (S : Type 0) : Type 0 where
  pub read_exact : ℕ → S → Result AdbError (List ℕ × S)
  pub write_all : List ℕ → S → Result AdbError S

-- What `AdbIo` promises: a byte stream each way. `read_exact` gives the next bytes when they are
-- there and fails when they are not, and `write_all` sends all of its bytes or fails.
pub record IoLaws {S : Type 0} (dev : AdbIo S) : Type 0 where
  pub incoming : S → List ℕ
  pub outgoing : S → List ℕ
  pub read :
      (n : ℕ) (s : S)
      → n ≤ length (incoming s)
      → (s' : S) × (dev.read_exact n s ≡ ok (take n (incoming s), s'))
        × (incoming s' ≡ drop n (incoming s))
        × (outgoing s' ≡ outgoing s)
  pub short :
      (n : ℕ) (s : S) → length (incoming s) < n → (e : AdbError) × (dev.read_exact n s ≡ err e)
  pub write :
      (bs : List ℕ) (s s' : S)
      → dev.write_all bs s ≡ ok s'
      → (outgoing s' ≡ outgoing s ++ bs) × (incoming s' ≡ incoming s)

abbrev pub max_payload : ℕ
max_payload = 4 * 1024 * 1024

-- The header and the payload are two writes.
unfoldable pub write_packet :
    {S : Type 0} → AdbIo S → Command → (arg0 arg1 : ℕ) → List ℕ → S → Result AdbError S
write_packet dev command arg0 arg1 bytes s = do
  s1 ← dev.write_all (to_bytes (new command arg0 arg1 bytes)) s
  if not (is_empty bytes) then dev.write_all bytes s1 else ok s1

-- The payload's part of `read_packet`.
unfoldable pub read_payload :
    {S : Type 0} → AdbIo S → Packet → S → Result AdbError ((Packet × List ℕ) × S)
read_payload dev pkt s =
    if ltb 0 pkt.data_length
    then (dev.read_exact pkt.data_length s >>= λ (bytes, s2).
        fail_if (not (pkt.data_crc32 == 0) && not (pkt.data_crc32 == checksum bytes))
          (protocol checksum_mismatch)
        >> ok ((pkt, bytes), s2))
    else ok ((pkt, []), s)

unfoldable pub read_packet : {S : Type 0} → AdbIo S → S → Result AdbError ((Packet × List ℕ) × S)
read_packet dev s = do
  (hdr, s1) ← dev.read_exact 24 s
  pkt ← from_bytes hdr
  fail_if (ltb max_payload pkt.data_length) (protocol (payload_exceeds pkt.data_length))
  read_payload dev pkt s1
