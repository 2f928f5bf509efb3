-- ===== src/Adb/Protocol.antt =====
-- crates/transport/src/adb/protocol.rs: the 24-byte packet header.
use Prim.Native.Nat.{bit_xor}
use droidmirror.Base.{
  ℕ, ◌+◌, ◌*◌, ◌%◌, ◌^◌, Option, none, some, List, [], ◌∷◌, ◌++◌, ltb, ◌==◌, not, length,
  if◌then◌else◌,
}
use droidmirror.Base.Result.{Result, ok, ◌>>=◌, ◌>>◌, fail_if, ok_or}
use droidmirror.Base.Bytes.{slice, le_bytes, read_le}
use droidmirror.Base.Text.{ascii}

abbrev pub adb_version : ℕ
adb_version = 0x01000001

abbrev pub adb_maxdata : ℕ
adb_maxdata = 1024 * 1024

-- With the NUL byte at its end.
abbrev pub cnxn_banner : List ℕ
cnxn_banner =
    ascii "host::features=shell_v2,cmd,stat_v2,ls_v2,fixed_push_mkdir,apex,abb" ++ (0 ∷ [])

abbrev pub auth_token : ℕ
auth_token = 1

abbrev pub auth_signature : ℕ
auth_signature = 2

abbrev pub auth_rsapublickey : ℕ
auth_rsapublickey = 3

pub data Command : Type 0 where
  sync : Command
  cnxn : Command
  auth : Command
  open_ : Command
  okay : Command
  clse : Command
  wrte : Command

-- `command as u32`.
abbrev pub command_code : Command → ℕ
command_code sync = 0x434e5953
command_code cnxn = 0x4e584e43
command_code auth = 0x48545541
command_code open_ = 0x4e45504f
command_code okay = 0x59414b4f
command_code clse = 0x45534c43
command_code wrte = 0x45545257

unfoldable pub command_from_u32 : ℕ → Option Command
command_from_u32 value =
    if value == 0x434e5953
    then some sync
    else if value == 0x4e584e43
    then some cnxn
    else if value == 0x48545541
    then some auth
    else if value == 0x4e45504f
    then some open_
    else if value == 0x59414b4f
    then some okay
    else if value == 0x45534c43
    then some clse
    else if value == 0x45545257
    then some wrte
    else none

-- The texts of `AdbError::Protocol`, one constructor for each that the source builds.
pub data ProtocolText : Type 0 where
  header_short : ProtocolText
  unknown_command : ℕ → ProtocolText
  magic_mismatch : ProtocolText
  payload_exceeds : ℕ → ProtocolText
  checksum_mismatch : ProtocolText
  unexpected : Command → ProtocolText
  sync_reply : ProtocolText
  length_not_text : ProtocolText
  length_not_hex : List ℕ → ProtocolText
  server_status : List ℕ → ProtocolText

pub data AdbError : Type 0 where
  usb : List ℕ → AdbError
  io : List ℕ → AdbError
  protocol : ProtocolText → AdbError
  auth_failed : List ℕ → AdbError
  timeout : AdbError
  closed : AdbError
  msg : List ℕ → AdbError

pub record Packet : Type 0 where
  pub command : Command
  pub arg0 : ℕ
  pub arg1 : ℕ
  pub data_length : ℕ
  pub data_crc32 : ℕ
  pub magic : ℕ

-- `checksum`: the sum of the bytes, by `wrapping_add`.
abbrev pub checksum_from : ℕ → List ℕ → ℕ
checksum_from acc [] = acc
checksum_from acc (b ∷ bs) = checksum_from ((acc + b) % 2 ^ 32) bs

unfoldable pub checksum : List ℕ → ℕ
checksum bs = checksum_from 0 bs

abbrev pub command_magic : Command → ℕ
command_magic c = bit_xor (command_code c) 0xffff_ffff

-- `Packet::new`.
abbrev pub new : Command → (arg0 arg1 : ℕ) → List ℕ → Packet
new command arg0 arg1 bytes = record {
  command = command;
  arg0 = arg0;
  arg1 = arg1;
  data_length = length bytes % 2 ^ 32;
  data_crc32 = checksum bytes;
  magic = command_magic command;
}

unfoldable pub to_bytes : Packet → List ℕ
to_bytes p =
    le_bytes 4 (command_code p.command)
    ++ (le_bytes 4 p.arg0
        ++ (le_bytes 4 p.arg1
            ++ (le_bytes 4 p.data_length ++ (le_bytes 4 p.data_crc32 ++ le_bytes 4 p.magic))))

abbrev word : (from : ℕ) → List ℕ → ℕ
word from bytes = read_le (slice from (from + 4) bytes)

unfoldable pub from_bytes : List ℕ → Result AdbError Packet
from_bytes bytes = do
  fail_if (ltb (length bytes) 24) (protocol header_short)
  command ← ok_or (command_from_u32 (word 0 bytes)) (protocol (unknown_command (word 0 bytes)))
  fail_if (not (word 20 bytes == command_magic command)) (protocol magic_mismatch)
  ok (record {
    command = command;
    arg0 = word 4 bytes;
    arg1 = word 8 bytes;
    data_length = word 12 bytes;
    data_crc32 = word 16 bytes;
    magic = word 20 bytes;
  })
