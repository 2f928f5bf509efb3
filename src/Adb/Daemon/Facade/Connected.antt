-- ===== src/Adb/Daemon/Facade/Connected.antt =====
-- `connect` against a server that answers.
use droidmirror.Base.{ℕ, ◌^◌, ◌<◌, ◌≡◌, refl, Option, List, ◌++◌, length}
use droidmirror.Base.Result.{ok}
use droidmirror.Base.Text.{ascii, hex}
use droidmirror.Adb.Packets.{AdbIo, IoLaws}
use droidmirror.Adb.Exchange.{read_front}
use droidmirror.Adb.Daemon.{write_request, expect_okay}
use droidmirror.Adb.Daemon.Requests.{read_hex_payload_receives}
use droidmirror.Adb.Daemon.Serials.{Bytes, pick_serial}
use droidmirror.Adb.Daemon.Facade.{connect}

module _ {S : Type 0} (dev : AdbIo S) (laws : IoLaws dev) (trim lossy : Bytes → Bytes) where
  expect_okay_receives :
      (rest : List ℕ) (s : S)
      → laws.incoming s ≡ ascii "OKAY" ++ rest
      → (s' : S) × (expect_okay dev trim lossy s ≡ ok s') × (laws.incoming s' ≡ rest)
  unfolding expect_okay
  expect_okay_receives rest s e =
      let (s1, got, left, out) = read_front dev laws (ascii "OKAY") rest s e in
      (s1, rw got refl, left)

-- Where the request for the devices is written and the server answers `OKAY` and a list of less than
-- 65536 bytes, a connection takes the device that `pick_serial` takes from that list, or its error.
pub connect-pick_serial :
    {S : Type 0} (dev : AdbIo S) (laws : IoLaws dev) (trim lossy : Bytes → Bytes)
    (want : Option Bytes) (list rest : Bytes) (s s1 : S)
    → length list < 2 ^ 16
    → write_request dev (ascii "host:devices") s ≡ ok s1
    → laws.incoming s1 ≡ ascii "OKAY" ++ (hex 4 (length list) ++ (list ++ rest))
    → connect dev trim lossy want s ≡ pick_serial trim (lossy list) want
unfolding connect
connect-pick_serial dev laws trim lossy want list rest s s1 h e arrives =
    let (s2, okay, left) = expect_okay_receives dev laws trim lossy _ s1 arrives in
    let (s3, got, left3) = read_hex_payload_receives dev laws list rest s2 h left in
    rw (e, okay, got) refl
