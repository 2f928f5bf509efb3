-- ===== src/Adb/Daemon.antt =====
-- crates/transport/src/adb/server.rs: the client of the local `adb` server: its requests, the choice
-- of a device and `usb_is_busy`. The socket is an `AdbIo`; `trim` is `str::trim`, and `lossy` is
-- `String::from_utf8_lossy`.
pub mod Requests
pub mod Serials
pub mod Facade
pub mod Streams
use droidmirror.Base.{
  ℕ, zero, suc, ◌+◌, ◌-◌, ◌*◌, ◌^◌, Bool, true, false, ◌&&◌, ◌||◌, not, Option, none, some, List,
  [], ◌∷◌, ◌++◌, leb, ltb, ◌==◌, length, if◌then◌else◌,
}
use droidmirror.Base.Result.{Result, ok, err, ◌>>=◌, ◌>>◌, fail_if, ok_or}
use droidmirror.Base.Bytes.{starts_with}
use droidmirror.Base.Utf8.{is_utf8}
use droidmirror.Base.Text.{ascii, hex, hex_digits}
use droidmirror.Adb.Protocol.{
  AdbError, msg, protocol, length_not_text, length_not_hex, server_status,
}
use droidmirror.Adb.Packets.{AdbIo}

-- `format!("{:04x}", n)`: at least four digits.
abbrev pub hex_4 : ℕ → List ℕ
hex_4 n = if ltb n (2 ^ 16) then hex 4 n else hex_digits n

-- The value of a hexadecimal digit.
unfoldable pub hex_value : ℕ → Option ℕ
hex_value c =
    if leb b'0' c && leb c b'9'
    then some (c - b'0')
    else if leb b'a' c && leb c b'f'
    then some (c - 87)
    else if leb b'A' c && leb c b'F'
    then some (c - 55)
    else none

abbrev pub push_hex : (again : ℕ → Option ℕ) → ℕ → Option ℕ → Option ℕ
push_hex again acc none = none
push_hex again acc (some d) = again (acc * 16 + d)

unfoldable pub hex_from : ℕ → List ℕ → Option ℕ
hex_from acc [] = some acc
hex_from acc (c ∷ cs) = push_hex (λ a. hex_from a cs) acc (hex_value c)

-- `usize::from_str_radix(s, 16)` of a text of four bytes: a sign `+` may stand in front.
unfoldable pub from_hex : List ℕ → Option ℕ
from_hex [] = none
from_hex (c ∷ []) = hex_from 0 (c ∷ [])
from_hex (c ∷ d ∷ cs) = if c == b'+' then hex_from 0 (d ∷ cs) else hex_from 0 (c ∷ d ∷ cs)

module _ {S : Type 0} (dev : AdbIo S) where
  unfoldable pub write_request : List ℕ → S → Result AdbError S
  write_request request s = do
    s1 ← dev.write_all (hex_4 (length request)) s
    dev.write_all request s1

  unfoldable pub read_hex_payload : S → Result AdbError (List ℕ × S)
  read_hex_payload s = do
    (digits, s1) ← dev.read_exact 4 s
    fail_if (not (is_utf8 digits)) (protocol length_not_text)
    len ← ok_or (from_hex digits) (protocol (length_not_hex digits))
    if ltb 0 len then dev.read_exact len s1 else ok ([], s1)

  abbrev pub on_status : (trim lossy : List ℕ → List ℕ) → List ℕ → S → Result AdbError S
  on_status trim lossy status s =
      if starts_with status (ascii "OKAY")
      then ok s
      else if starts_with status (ascii "FAIL")
      then (read_hex_payload s >>= λ (text, s1). err (msg (trim (lossy text))))
      else err (protocol (server_status (lossy status)))

  unfoldable pub expect_okay : (trim lossy : List ℕ → List ℕ) → S → Result AdbError S
  expect_okay trim lossy s = do (status, s1) ← dev.read_exact 4 s; on_status trim lossy status s1
