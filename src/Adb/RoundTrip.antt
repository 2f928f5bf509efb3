-- ===== src/Adb/RoundTrip.antt =====
-- A header written and read back.
use droidmirror.Base.{◌^◌, ◌<◌, ◌≡◌, refl, arith, some, length}
use droidmirror.Base.Result.{ok}
use droidmirror.Base.Bytes.{le_bytes, read_le-le_bytes}
use droidmirror.Adb.Protocol.{
  Command, sync, cnxn, auth, open_, okay, clse, wrte, command_code, command_from_u32, command_magic,
  Packet, to_bytes, from_bytes,
}

-- The fields are `u32`s.
abbrev pub IsPacket : Packet → Type 0
IsPacket p =
    (p.arg0 < 2 ^ 32) × (p.arg1 < 2 ^ 32) × (p.data_length < 2 ^ 32) × (p.data_crc32 < 2 ^ 32)

pub command_from_u32-command_code : (c : Command) → command_from_u32 (command_code c) ≡ some c
unfolding command_from_u32
command_from_u32-command_code sync = refl
command_from_u32-command_code cnxn = refl
command_from_u32-command_code auth = refl
command_from_u32-command_code open_ = refl
command_from_u32-command_code okay = refl
command_from_u32-command_code clse = refl
command_from_u32-command_code wrte = refl

pub command_magic-lt : (c : Command) → command_magic c < 2 ^ 32
command_magic-lt sync = omega arith
command_magic-lt cnxn = omega arith
command_magic-lt auth = omega arith
command_magic-lt open_ = omega arith
command_magic-lt okay = omega arith
command_magic-lt clse = omega arith
command_magic-lt wrte = omega arith

command_code-lt : (c : Command) → command_code c < 2 ^ 32
command_code-lt sync = omega arith
command_code-lt cnxn = omega arith
command_code-lt auth = omega arith
command_code-lt open_ = omega arith
command_code-lt okay = omega arith
command_code-lt clse = omega arith
command_code-lt wrte = omega arith

pub length-to_bytes : (p : Packet) → length (to_bytes p) ≡ 24
unfolding to_bytes le_bytes
length-to_bytes p = refl

-- Any header with the magic of its command is read back as it was written, each of its fields
-- being a `u32`.
pub from_bytes-to_bytes :
    (p : Packet) → IsPacket p → p.magic ≡ command_magic p.command → from_bytes (to_bytes p) ≡ ok p
unfolding from_bytes to_bytes le_bytes
from_bytes-to_bytes p h m = ground (
  arith,
  command_from_u32-command_code p.command,
  command_magic-lt p.command,
  read_le-le_bytes 4 (command_code p.command) (command_code-lt p.command),
  read_le-le_bytes 4 p.arg0 h.0,
  read_le-le_bytes 4 p.arg1 h.1,
  read_le-le_bytes 4 p.data_length h.2,
  read_le-le_bytes 4 p.data_crc32 h.3,
  read_le-le_bytes 4 (command_magic p.command) (command_magic-lt p.command),
)
