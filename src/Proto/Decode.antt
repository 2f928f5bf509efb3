-- ===== src/Proto/Decode.antt =====
-- crates/proto/src/lib.rs: `try_decode_frame` and `decode_payload`, a function for each arm.
use Prim.Native.Nat.{bit_and}
use droidmirror.Base.{
  ℕ, ◌+◌, ◌||◌, not, Option, none, some, List, ltb, ◌==◌, length, get_or, drop, if◌then◌else◌,
}
use droidmirror.Base.Result.{Result, ok, err, ◌>>=◌, ◌>>◌, fail_if, ok_or}
use droidmirror.Base.Bytes.{slice, read_le, i32_of_bits}
use droidmirror.Base.Utf8.{is_utf8}
use droidmirror.Base.Int.{ℤ}
use droidmirror.Proto.Types.{
  codec_from_u8, Message, video_frame, configure, touch, key, text, scroll, set_encoding, key_syn,
  pause_resume, reserved, ProtoError, bad_length, bad_codec, bad_utf8, malformed, max_frame_len,
  max_csd_len, flag_keyframe, tag_video_frame, tag_configure, tag_touch, tag_key, tag_text,
  tag_scroll, tag_set_encoding, tag_key_syn, tag_pause,
}

-- `p[i..j]` read as an unsigned or a signed integer, and `p[i]`.
abbrev pub uint : ℕ → ℕ → List ℕ → ℕ
uint i j p = read_le (slice i j p)

abbrev pub int : ℕ → ℕ → List ℕ → ℤ
int i j p = i32_of_bits (uint i j p)

abbrev pub at : ℕ → List ℕ → ℕ
at i p = get_or p i 0

unfoldable pub decode_video : List ℕ → Result ProtoError Message
decode_video p = do
  fail_if (ltb (length p) 13) (malformed tag_video_frame)
  fail_if (not (length p == 13 + uint 9 13 p)) (malformed tag_video_frame)
  ok (video_frame (uint 0 8 p) (not (bit_and (at 8 p) flag_keyframe == 0)) (drop 13 p))

unfoldable pub decode_configure : List ℕ → Result ProtoError Message
decode_configure p = do
  fail_if (ltb (length p) 7) (malformed tag_configure)
  codec ← ok_or (codec_from_u8 (at 0 p)) (bad_codec (at 0 p))
  let csd_len = uint 5 7 p
  fail_if (ltb max_csd_len csd_len || not (length p == 7 + csd_len)) (malformed tag_configure)
  ok (configure codec (uint 1 3 p) (uint 3 5 p) (drop 7 p))

unfoldable pub decode_touch : List ℕ → Result ProtoError Message
decode_touch p = do
  fail_if (not (length p == 12)) (malformed tag_touch)
  ok (touch (at 0 p) (at 1 p) (int 2 6 p) (int 6 10 p) (uint 10 12 p))

unfoldable pub decode_key : List ℕ → Result ProtoError Message
decode_key p = do
  fail_if (not (length p == 9)) (malformed tag_key)
  ok (key (at 0 p) (uint 1 5 p) (uint 5 9 p))

unfoldable pub decode_text : List ℕ → Result ProtoError Message
decode_text p = do
  fail_if (ltb (length p) 2) (malformed tag_text)
  fail_if (not (length p == 2 + uint 0 2 p)) (malformed tag_text)
  fail_if (not (is_utf8 (drop 2 p))) bad_utf8
  ok (text (drop 2 p))

unfoldable pub decode_scroll_msg : List ℕ → Result ProtoError Message
decode_scroll_msg p = do
  fail_if (not (length p == 16)) (malformed tag_scroll)
  ok (scroll (int 0 4 p) (int 4 8 p) (int 8 12 p) (int 12 16 p))

unfoldable pub decode_set_encoding : List ℕ → Result ProtoError Message
decode_set_encoding p = do
  fail_if (not (length p == 10)) (malformed tag_set_encoding)
  ok (set_encoding (uint 0 4 p) (uint 4 8 p) (uint 8 10 p))

unfoldable pub decode_key_syn : List ℕ → Result ProtoError Message
decode_key_syn p = do
  fail_if (not (length p == 5)) (malformed tag_key_syn)
  ok (key_syn (uint 0 4 p) (at 4 p))

unfoldable pub decode_pause : List ℕ → Result ProtoError Message
decode_pause p = do
  fail_if (not (length p == 1)) (malformed tag_pause)
  ok (pause_resume (not (at 0 p == 0)))

unfoldable pub decode_payload : ℕ → List ℕ → Result ProtoError Message
decode_payload tag p =
    if tag == tag_video_frame
    then decode_video p
    else if tag == tag_configure
    then decode_configure p
    else if tag == tag_touch
    then decode_touch p
    else if tag == tag_key
    then decode_key p
    else if tag == tag_text
    then decode_text p
    else if tag == tag_scroll
    then decode_scroll_msg p
    else if tag == tag_set_encoding
    then decode_set_encoding p
    else if tag == tag_key_syn
    then decode_key_syn p
    else if tag == tag_pause
    then decode_pause p
    else ok (reserved tag p)

-- `ok none` means that the buffer does not yet hold a whole frame; else the message and its length.
unfoldable pub try_decode_frame : List ℕ → Result ProtoError (Option (Message × ℕ))
try_decode_frame buf =
    let total = uint 0 4 buf in
    if ltb (length buf) 4
    then ok none
    else if ltb total 1 || ltb max_frame_len total
    then err (bad_length total)
    else if ltb (length buf) (4 + total)
    then ok none
    else decode_payload (at 4 buf) (slice 5 (4 + total) buf) >>= λ msg. ok (some (msg, 4 + total))
