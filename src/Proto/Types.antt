-- ===== src/Proto/Types.antt =====
-- crates/proto/src/lib.rs: constants, `Codec`, `Handshake`, `Message`, `ProtoError`.
use droidmirror.Base.{ℕ, ◌*◌, Bool, List, ◌++◌, Option, none, some, ◌==◌, if◌then◌else◌}
use droidmirror.Base.Int.{ℤ}
use droidmirror.Base.Text.{ascii, decimal, hex}

abbrev pub magic : List ℕ
magic = ascii "DMIR"

abbrev pub version : ℕ
version = 1

abbrev pub max_frame_len : ℕ
max_frame_len = 8 * 1024 * 1024

abbrev pub max_csd_len : ℕ
max_csd_len = 64 * 1024

abbrev pub max_name_len : ℕ
max_name_len = 256

abbrev pub u16_max : ℕ
u16_max = 65535

abbrev pub u32_max : ℕ
u32_max = 4294967295

abbrev pub flag_keyframe : ℕ
flag_keyframe = 0x01

abbrev pub cap_uinput : ℕ
cap_uinput = 1

abbrev pub cap_h265 : ℕ
cap_h265 = 2

abbrev pub cap_audio : ℕ
cap_audio = 4

-- The message tags.
abbrev pub tag_video_frame : ℕ
tag_video_frame = 0x01

abbrev pub tag_configure : ℕ
tag_configure = 0x02

abbrev pub tag_touch : ℕ
tag_touch = 0x10

abbrev pub tag_key : ℕ
tag_key = 0x11

abbrev pub tag_text : ℕ
tag_text = 0x12

abbrev pub tag_scroll : ℕ
tag_scroll = 0x13

abbrev pub tag_set_encoding : ℕ
tag_set_encoding = 0x14

abbrev pub tag_key_syn : ℕ
tag_key_syn = 0x15

abbrev pub tag_pause : ℕ
tag_pause = 0x7f

pub data Codec : Type 0 where
  h264 h265 : Codec

-- `codec as u8`.
abbrev pub codec_byte : Codec → ℕ
codec_byte h264 = 1
codec_byte h265 = 2

-- `Codec::from_u8`.
abbrev pub codec_from_u8 : ℕ → Option Codec
codec_from_u8 v = if v == 1 then some h264 else if v == 2 then some h265 else none

abbrev pub webcodecs_id : Codec → List ℕ
webcodecs_id h264 = ascii "avc1.42E01E"
webcodecs_id h265 = ascii "hev1.1.6.L93.B0"

-- `csd` and `device_name` are bytes, the name's in UTF-8.
pub record Handshake : Type 0 where
  pub version_byte : ℕ
  pub codec : Codec
  pub width : ℕ
  pub height : ℕ
  pub csd : List ℕ
  pub device_name : List ℕ
  pub caps : ℕ

-- The arguments stand in the order of the source's fields. A text is its UTF-8 bytes.
pub data Message : Type 0 where
  video_frame : (pts_us : ℕ) (keyframe : Bool) (nal : List ℕ) → Message
  configure : (codec : Codec) (width height : ℕ) (csd : List ℕ) → Message
  touch : (action pointer_id : ℕ) (x y : ℤ) (pressure : ℕ) → Message
  key : (action keycode meta : ℕ) → Message
  text : List ℕ → Message
  scroll : (x y h v : ℤ) → Message
  set_encoding : (bitrate max_fps max_size : ℕ) → Message
  key_syn : (keycode action : ℕ) → Message
  pause_resume : Bool → Message
  reserved : (tag : ℕ) (payload : List ℕ) → Message

-- `Message::tag`.
abbrev pub message_tag : Message → ℕ
message_tag (video_frame pts_us keyframe nal) = tag_video_frame
message_tag (configure codec width height csd) = tag_configure
message_tag (touch action pointer_id x y pressure) = tag_touch
message_tag (key action keycode meta) = tag_key
message_tag (text s) = tag_text
message_tag (scroll x y h v) = tag_scroll
message_tag (set_encoding bitrate max_fps max_size) = tag_set_encoding
message_tag (key_syn keycode action) = tag_key_syn
message_tag (pause_resume on) = tag_pause
message_tag (reserved tag payload) = tag

pub data ProtoError : Type 0 where
  bad_magic bad_utf8 : ProtoError
  bad_version bad_codec bad_length malformed : ℕ → ProtoError
  truncated : (need have : ℕ) → ProtoError

-- `Display`, by the `#[error]` attributes.
unfoldable pub error_text : ProtoError → List ℕ
error_text bad_magic = ascii "bad magic"
error_text (bad_version v) = ascii "unsupported version " ++ decimal v
error_text (bad_codec c) = ascii "unknown codec " ++ decimal c
error_text (truncated need have) =
    ascii "truncated: need " ++ (decimal need ++ (ascii " bytes, have " ++ decimal have))
error_text (bad_length n) = ascii "invalid length " ++ decimal n
error_text (malformed tag) = ascii "malformed payload for tag 0x" ++ hex 2 tag
error_text bad_utf8 = ascii "text is not utf-8"
