-- ===== src/Adb/Daemon/Streams/Pushed.antt =====
-- A push over the streams of `AdbServer`.
use droidmirror.Base.{
  ℕ, ◌≡◌, refl, sym, ap, ◌∙◌, arith, true, Option, none, some, List, [], ◌∷◌, ◌++◌, ◌==◌, length,
  append-nil,
}
use droidmirror.Base.Result.{Result, ok, >>=-eq-ok}
use droidmirror.Base.Text.{ascii, hex}
use droidmirror.Adb.Protocol.{AdbError}
use droidmirror.Adb.Packets.{AdbIo, IoLaws}
use droidmirror.Adb.Sync.Pushed.{StreamLaws}
use droidmirror.Adb.Daemon.Serials.{Bytes}
use droidmirror.Adb.Daemon.Streams.{
  AdbServer, Network, with_stream, write_on, write, received, read_on, read, server_ops,
}

-- A request with its length before it.
abbrev pub request_bytes : List ℕ → List ℕ
request_bytes request = hex 4 (length request) ++ request

abbrev pub transport_request : (serial : Bytes) → List ℕ
transport_request serial = ascii "host:transport:" ++ serial

-- What the calls of the network do: a socket that is dialled has sent nothing, and a read sends
-- nothing.
pub record NetworkLaws {N T : Type 0} {dev : AdbIo T} (laws : IoLaws dev) (network : Network N T)
    : Type 0 where
  pub fresh : (n n' : N) (t : T) → network.dial n ≡ ok (t, n') → laws.outgoing t ≡ []
  pub receives :
      (secs : ℕ) (t t' : T) (bytes : Option (List ℕ))
      → network.recv secs t ≡ some (bytes, t')
      → laws.outgoing t' ≡ laws.outgoing t

module _ {N T : Type 0} (dev : AdbIo T) (laws : IoLaws dev) (network : Network N T)
    (net_laws : NetworkLaws laws network) (trim lossy : Bytes → Bytes) where
  open laws use {outgoing}

  abbrev pub stream_sent : Option T → List ℕ
  stream_sent none = []
  stream_sent (some t) = outgoing t

  -- What has been sent on the socket of a stream.
  abbrev pub sent : (id : ℕ) → AdbServer N T → List ℕ
  sent id s = stream_sent (s.streams id)

  sent-with_stream :
      (id : ℕ) (t : T) (s : AdbServer N T)
      → sent id (with_stream dev network trim lossy s id t) ≡ outgoing t
  sent-with_stream id t s = let hit : (id == id) ≡ true = ground arith in rw hit refl

  write_on-sent :
      (id : ℕ) (bytes : List ℕ) (s s' : AdbServer N T) (o : Option T)
      → write_on dev network trim lossy id bytes s o ≡ ok s'
      → sent id s' ≡ stream_sent o ++ bytes
  write_on-sent id bytes s s' none e = absurd (cc)
  write_on-sent id bytes s s' (some t) e =
      let next : T → Result AdbError (AdbServer N T) =
        λ t1. ok (with_stream dev network trim lossy s id t1) in
      let (t1, e1, e2) = >>=-eq-ok (dev.write_all bytes t) next e in
      let same : with_stream dev network trim lossy s id t1 ≡ s' = cc in
      ap (sent id) (sym same) ∙ sent-with_stream id t1 s ∙ (laws.write bytes t t1 e1).0

  write-sent :
      (id : ℕ) (bytes : List ℕ) (s s' : AdbServer N T)
      → write dev network trim lossy id bytes s ≡ ok s'
      → sent id s' ≡ sent id s ++ bytes
  unfolding write
  write-sent id [] s s' e =
      let same : s ≡ s' = cc in ap (sent id) (sym same) ∙ sym (append-nil (sent id s))
  write-sent id (b ∷ bytes) s s' e = write_on-sent id (b ∷ bytes) s s' (s.streams id) e

  received-sent :
      (id : ℕ) (bytes : List ℕ) (s s' : AdbServer N T) (t : T) (secs : ℕ)
      (r : Option (Option (List ℕ) × T))
      → network.recv secs t ≡ r
      → received dev network trim lossy id s r ≡ some (ok (bytes, s'))
      → sent id s' ≡ outgoing t
  received-sent id bytes s s' t secs none q e = absurd (cc)
  received-sent id bytes s s' t secs (some (none, t1)) q e = absurd (cc)
  received-sent id bytes s s' t secs (some (some got, t1)) q e =
      let same : with_stream dev network trim lossy s id t1 ≡ s' = cc in
      ap (sent id) (sym same) ∙ sent-with_stream id t1 s ∙ net_laws.receives secs t t1 (some got) q

  read_on-sent :
      (id secs : ℕ) (bytes : List ℕ) (s s' : AdbServer N T) (o : Option T)
      → read_on dev network trim lossy id secs s o ≡ some (ok (bytes, s'))
      → sent id s' ≡ stream_sent o
  read_on-sent id secs bytes s s' none e = absurd (cc)
  read_on-sent id secs bytes s s' (some t) e = received-sent id bytes s s' t secs _ refl e

  read-sent :
      (id secs : ℕ) (bytes : List ℕ) (s s' : AdbServer N T)
      → read dev network trim lossy id secs s ≡ some (ok (bytes, s'))
      → sent id s' ≡ sent id s
  unfolding read
  read-sent id secs bytes s s' e = read_on-sent id secs bytes s s' (s.streams id) e

  -- What a new stream of the SYNC service has sent.
  abbrev pub sync_greeting : (serial : Bytes) → List ℕ
  sync_greeting serial = request_bytes (transport_request serial) ++ request_bytes (ascii "sync:")

  abbrev server_laws : StreamLaws (server_ops dev network trim lossy)
  server_laws = record { sent = sent; written = write-sent; reads = read-sent }
