-- ===== src/Adb/Daemon/Facade.antt =====
-- crates/transport/src/adb/server.rs: `AdbServer::connect` and the requests of `open_stream`;
-- crates/transport/src/lib.rs: `NativeAdb::connect_usb` and `push`. A socket to the server is dialled
-- by the caller; the text of an error in lower case is an argument.
pub mod Connected
use droidmirror.Base.{
  ℕ, ◌+◌, ◌-◌, Bool, ◌||◌, Option, none, some, List, [], ◌∷◌, ◌++◌, ltb, ◌==◌, length, drop,
  if◌then◌else◌,
}
use droidmirror.Base.Result.{Result, ok, err, ◌>>=◌}
use droidmirror.Base.Text.{ascii}
use droidmirror.Adb.Protocol.{AdbError, msg}
use droidmirror.Adb.Packets.{AdbIo}
use droidmirror.Adb.Daemon.{write_request, read_hex_payload, expect_okay}
use droidmirror.Adb.Daemon.Serials.{Bytes, pick_serial, usb_is_busy, transfer_failed, same_bytes}

module _ {S : Type 0} (dev : AdbIo S) (trim lossy : Bytes → Bytes) where
  -- The device that the server is asked for.
  unfoldable pub connect : (want : Option Bytes) → S → Result AdbError Bytes
  connect want s = do
    s1 ← write_request dev (ascii "host:devices") s
    s2 ← expect_okay dev trim lossy s1
    (list, s3) ← read_hex_payload dev s2
    pick_serial trim (lossy list) want

  -- A service of the device, on a socket of its own; `service` has no NUL at its end.
  unfoldable pub open_service : (serial service : Bytes) → S → Result AdbError S
  open_service serial service s = do
    s1 ← write_request dev (ascii "host:transport:" ++ serial) s
    s2 ← expect_okay dev trim lossy s1
    s3 ← write_request dev service s2
    expect_okay dev trim lossy s3

-- Which client a connection uses.
pub data Backend (D V : Type 0) : Type 0 where
  device : D → Backend D V
  server : V → Backend D V

module _ {D V : Type 0} (lower display : AdbError → Bytes) where
  abbrev pub or_both : (first : AdbError) → Result AdbError V → Result AdbError (Backend D V)
  or_both first (ok v) = ok (server v)
  or_both first (err second) = err (
      msg (
        display first
        ++ (ascii ". Could not use the adb server either ("
            ++ (display second
                ++ ascii
                    "). Run `adb devices` so the phone shows as `device`, or pass --serial."))))

  -- The server is tried only where the device's interface is taken or fails.
  unfoldable pub connect_usb :
      (direct : Result AdbError D) → (by_server : Result AdbError V) → Result AdbError (Backend D V)
  connect_usb (ok d) by_server = ok (device d)
  connect_usb (err e) by_server =
      if usb_is_busy (lower e) || transfer_failed (lower e) then or_both e by_server else err e

-- `0o100644` for a `.dex`, `0o100755` for anything else.
unfoldable pub push_mode : (remote : Bytes) → ℕ
push_mode remote =
    if ltb (length remote) 4
    then 33261
    else if same_bytes (drop (length remote - 4) remote) (ascii ".dex")
    then 33188
    else 33261
