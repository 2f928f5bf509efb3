-- ===== src/Adb/Exchange.antt =====
-- A packet sent and received, and the state machine's inversion of `read_packet`.
use droidmirror.Base.{
  ℕ, ◌+◌, ◌%◌, ◌^◌, ◌≤◌, ◌<◌, ◌≡◌, refl, sym, ap, subst, ◌∙◌, arith, false, List, [], ◌∷◌, ◌++◌,
  ltb, length, take, drop, append-nil, append_assoc, length-append,
}
use droidmirror.Base.Result.{ok, >>=-eq-ok}
use droidmirror.Base.Bytes.{take-append_length, drop-append_length}
use droidmirror.Adb.Protocol.{Command, new, to_bytes, checksum, checksum_from}
use droidmirror.Adb.RoundTrip.{from_bytes-to_bytes, length-to_bytes}
use droidmirror.Adb.Packets.{AdbIo, IoLaws, write_packet, read_packet, read_payload, max_payload}

checksum_from-lt : (bs : List ℕ) (acc : ℕ) → acc < 2 ^ 32 → checksum_from acc bs < 2 ^ 32
checksum_from-lt [] acc h = h
checksum_from-lt (b ∷ bs) acc h = checksum_from-lt bs ((acc + b) % 2 ^ 32) (omega arith)

checksum-lt : (bs : List ℕ) → checksum bs < 2 ^ 32
unfolding checksum
checksum-lt bs = checksum_from-lt bs 0 (omega arith)

-- What one packet puts on the wire.
abbrev pub packet_bytes : Command → (arg0 arg1 : ℕ) → List ℕ → List ℕ
packet_bytes command arg0 arg1 bytes = to_bytes (new command arg0 arg1 bytes) ++ bytes

module _ {S : Type 0} (dev : AdbIo S) (laws : IoLaws dev) where
  -- A packet that is written whole is its header and its payload on the wire.
  pub write_packet_sends :
      (command : Command) (arg0 arg1 : ℕ) (bytes : List ℕ) (s s' : S)
      → write_packet dev command arg0 arg1 bytes s ≡ ok s'
      → laws.outgoing s' ≡ laws.outgoing s ++ packet_bytes command arg0 arg1 bytes
  unfolding write_packet
  write_packet_sends command arg0 arg1 [] s s' e =
      let header = to_bytes (new command arg0 arg1 []) in
      let (s1, e1, e2) = >>=-eq-ok (dev.write_all header s) _ e in
      let sent = (laws.write header s s1 e1).0 in
      let same : s1 ≡ s' = cc in rw (sym same, sent, append-nil header) refl
  write_packet_sends command arg0 arg1 (b ∷ bytes) s s' e =
      let header = to_bytes (new command arg0 arg1 (b ∷ bytes)) in
      let (s1, e1, e2) = >>=-eq-ok (dev.write_all header s) _ e in
      let sent = (laws.write header s s1 e1).0 in
      (laws.write (b ∷ bytes) s1 s' e2).0
      ∙ ap (λ l. l ++ (b ∷ bytes)) sent
      ∙ append_assoc (laws.outgoing s) header (b ∷ bytes)

  pub read_front :
      (front more : List ℕ) (s : S)
      → laws.incoming s ≡ front ++ more
      → (s1 : S) × (dev.read_exact (length front) s ≡ ok (front, s1))
        × (laws.incoming s1 ≡ more)
        × (laws.outgoing s1 ≡ laws.outgoing s)
  read_front front more s e =
      let enough : length front ≤ length (laws.incoming s) =
        rw e (omega (arith, length-append front more)) in
      let (s1, got, left, out) = laws.read (length front) s enough in
      (
        s1,
        got ∙ ap (λ l. ok (l, s1)) (ap (take (length front)) e ∙ take-append_length front more),
        left ∙ ap (drop (length front)) e ∙ drop-append_length front more,
        out,
      )

  read_payload_receives :
      (command : Command) (arg0 arg1 : ℕ) (bytes rest : List ℕ) (s : S)
      → length bytes ≤ max_payload
      → laws.incoming s ≡ bytes ++ rest
      → (s' : S) × (read_payload dev (new command arg0 arg1 bytes) s
          ≡ ok ((new command arg0 arg1 bytes, bytes), s'))
        × (laws.incoming s' ≡ rest)
        × (laws.outgoing s' ≡ laws.outgoing s)
  unfolding read_payload
  read_payload_receives command arg0 arg1 [] rest s hl e = (s, refl, e, refl)
  read_payload_receives command arg0 arg1 (b ∷ bytes) rest s hl e =
      let (s1, got, left, out) = read_front (b ∷ bytes) rest s e in
      let counted : length (b ∷ bytes) % 2 ^ 32 ≡ length (b ∷ bytes) = omega arith in
      (s1, ground (arith, got, counted), left, out)

  pub read_packet_receives :
      (command : Command) (arg0 arg1 : ℕ) (bytes rest : List ℕ) (s : S)
      → arg0 < 2 ^ 32
      → arg1 < 2 ^ 32
      → length bytes ≤ max_payload
      → laws.incoming s ≡ packet_bytes command arg0 arg1 bytes ++ rest
      → (s' : S) × (read_packet dev s ≡ ok ((new command arg0 arg1 bytes, bytes), s'))
        × (laws.incoming s' ≡ rest)
        × (laws.outgoing s' ≡ laws.outgoing s)
  unfolding read_packet
  read_packet_receives command arg0 arg1 bytes rest s h0 h1 hl e =
      let p = new command arg0 arg1 bytes in
      let (s1, got, left, out) =
        read_front (to_bytes p) (bytes ++ rest) s (e ∙ append_assoc (to_bytes p) bytes rest) in
      let header : dev.read_exact 24 s ≡ ok (to_bytes p, s1) =
        subst (λ n. dev.read_exact n s ≡ ok (to_bytes p, s1)) (length-to_bytes p) got in
      let parsed = from_bytes-to_bytes p (h0, h1, omega arith, checksum-lt bytes) refl in
      let short : ltb max_payload (length bytes % 2 ^ 32) ≡ false = ground arith in
      let (s2, paid, left2, out2) = read_payload_receives command arg0 arg1 bytes rest s1 hl left in
      (s2, rw (header, parsed, short) paid, left2, out2 ∙ out)

-- What one side writes as a packet, the other side reads as that packet, when the bytes written come
-- to it: the same command and arguments, which are `u32`s, the same payload, of at most
-- `MAX_PAYLOAD` bytes, and not a byte more.
pub read_packet-write_packet :
    {S T : Type 0} (dev : AdbIo S) (laws : IoLaws dev) (peer : AdbIo T) (peer_laws : IoLaws peer)
    (command : Command) (arg0 arg1 : ℕ) (bytes rest : List ℕ) (s s' : S) (t : T)
    → arg0 < 2 ^ 32
    → arg1 < 2 ^ 32
    → length bytes ≤ max_payload
    → write_packet dev command arg0 arg1 bytes s ≡ ok s'
    → peer_laws.incoming t ≡ drop (length (laws.outgoing s)) (laws.outgoing s') ++ rest
    → (t' : T) × (read_packet peer t ≡ ok ((new command arg0 arg1 bytes, bytes), t'))
      × (peer_laws.incoming t' ≡ rest)
      × (peer_laws.outgoing t' ≡ peer_laws.outgoing t)
read_packet-write_packet dev laws peer peer_laws command arg0 arg1 bytes rest s s' t h0 h1 hl
      written arrives =
    let sent = write_packet_sends dev laws command arg0 arg1 bytes s s' written in
    read_packet_receives peer peer_laws command arg0 arg1 bytes rest t h0 h1 hl (
      arrives
      ∙ ap (λ l. drop (length (laws.outgoing s)) l ++ rest) sent
      ∙ ap (λ l. l ++ rest)
          (drop-append_length (laws.outgoing s) (packet_bytes command arg0 arg1 bytes)))
