-- ===== src/Adb/Daemon/Serials.antt =====
-- crates/transport/src/adb/server.rs: `pick_serial` and `usb_is_busy`. Texts are UTF-8 bytes; `trim`
-- is `str::trim`.
pub mod Picked
use droidmirror.Base.{
  ℕ, zero, suc, Bool, true, false, ◌&&◌, ◌||◌, not, Option, none, some, List, [], ◌∷◌, ◌++◌, leb,
  ◌==◌, ◌+◌, if◌then◌else◌,
}
use droidmirror.Base.Result.{Result, ok, err}
use droidmirror.Base.Bytes.{starts_with}
use droidmirror.Base.Text.{ascii}
use droidmirror.Proto.AnnexB.{is_empty}
use droidmirror.Adb.Protocol.{AdbError, msg}

abbrev pub Bytes : Type 0
Bytes = List ℕ

abbrev pub split_step : Bool → ℕ → List Bytes → List Bytes
split_step true b parts = [] ∷ parts
split_step false b [] = (b ∷ []) ∷ []
split_step false b (part ∷ parts) = (b ∷ part) ∷ parts

-- `str::split` at one byte.
unfoldable pub split : ℕ → Bytes → List Bytes
split sep [] = [] ∷ []
split sep (b ∷ bs) = split_step (b == sep) b (split sep bs)

unfoldable pub same_bytes : Bytes → Bytes → Bool
same_bytes [] [] = true
same_bytes (a ∷ as') (b ∷ bs) = a == b && same_bytes as' bs
same_bytes _ _ = false

unfoldable pub any : (Bytes → Bool) → List Bytes → Bool
any p [] = false
any p (x ∷ xs) = p x || any p xs

unfoldable pub filter : (Bytes → Bool) → List Bytes → List Bytes
filter p [] = []
filter p (x ∷ xs) = if p x then x ∷ filter p xs else filter p xs

-- `join(", ")`.
unfoldable pub join : List Bytes → Bytes
join [] = []
join (x ∷ []) = x
join (x ∷ y ∷ xs) = x ++ (ascii ", " ++ join (y ∷ xs))

pub record Devices : Type 0 where
  pub online : List Bytes
  pub other : List Bytes

abbrev pub first_or_empty : List Bytes → Bytes
first_or_empty [] = []
first_or_empty (x ∷ xs) = x

abbrev pub second_or_empty : List Bytes → Bytes
second_or_empty [] = []
second_or_empty (x ∷ xs) = first_or_empty xs

-- A line of `host:devices`, put in front of what the later lines give.
unfoldable pub add_device : (serial state : Bytes) → Devices → Devices
add_device serial state d =
    if is_empty serial
    then d
    else if same_bytes state (ascii "device")
    then record d { online = serial ∷ d.online }
    else record d { other = (serial ++ (ascii " (" ++ (state ++ ascii ")"))) ∷ d.other }

module _ (trim : Bytes → Bytes) where
  unfoldable pub add_line : Bytes → Devices → Devices
  add_line line d =
      let parts = split b'\t' (trim line) in
      if is_empty (trim line)
      then d
      else add_device (trim (first_or_empty parts)) (trim (second_or_empty parts)) d

  unfoldable pub devices_of : List Bytes → Devices
  devices_of [] = record { online = []; other = [] }
  devices_of (line ∷ lines) = add_line line (devices_of lines)

  unfoldable pub devices : Bytes → Devices
  devices text = devices_of (split b'\n' text)

abbrev pub is_emulator : Bytes → Bool
is_emulator s = starts_with s (ascii "emulator-")

unfoldable pub hardware : List Bytes → List Bytes
hardware online = filter (λ s. not (is_emulator s)) online

abbrev pub or_all : (online found : List Bytes) → List Bytes
or_all online [] = online
or_all online (x ∷ xs) = x ∷ xs

-- The hardware, or everything where there is none.
unfoldable pub candidates : List Bytes → List Bytes
candidates online = or_all online (hardware online)

abbrev pub pick_one : (other found : List Bytes) → Result AdbError Bytes
pick_one other [] = err (
    msg (
      ascii "adb server has no online device"
      ++ elim other [ [] ↦ [] | x ∷ xs ↦ ascii " (" ++ (join (x ∷ xs) ++ ascii ")") ]))
pick_one other (x ∷ []) = ok x
pick_one other (x ∷ y ∷ xs) =
    err (msg (ascii "multiple devices (" ++ (join (x ∷ y ∷ xs) ++ ascii "); pass --serial")))

unfoldable pub pick_wanted : Bytes → Devices → Result AdbError Bytes
pick_wanted want d =
    if any (λ s. same_bytes s want) d.online
    then ok want
    else if any (λ s. starts_with s want) d.other
    then err (msg (want ++ ascii " is not authorized. Accept the USB debugging prompt, then retry"))
    else err (
        msg (
          ascii "adb server has no device "
          ++ (want
              ++ (ascii " (online: "
                  ++ ((elim d.online [ [] ↦ ascii "none" | x ∷ xs ↦ join (x ∷ xs) ])
                      ++ ascii ")")))))

unfoldable pub pick_serial : (trim : Bytes → Bytes) → Bytes → Option Bytes → Result AdbError Bytes
pick_serial trim text none =
    pick_one (devices trim text).other (candidates (devices trim text).online)
pick_serial trim text (some want) = pick_wanted want (devices trim text)

-- `contains`.
unfoldable pub contains : Bytes → Bytes → Bool
contains [] p = starts_with [] p
contains (b ∷ bs) p = starts_with (b ∷ bs) p || contains bs p

-- `lower` is the error's text by `to_ascii_lowercase`.
unfoldable pub usb_is_busy : (lower : Bytes) → Bool
usb_is_busy lower =
    contains lower (ascii "exclusive")
    || (contains lower (ascii "resource busy")
        || (contains lower (ascii "already open") || contains lower (ascii "access denied")))

-- crates/transport/src/lib.rs: `transfer_failed`.
unfoldable pub transfer_failed : (lower : Bytes) → Bool
transfer_failed lower =
    contains lower (ascii "unknown error")
    || (contains lower (ascii "bulk in") || contains lower (ascii "bulk out"))
