-- ===== src/Proto/Encode.antt =====
-- crates/proto/src/lib.rs: `Message::encode`, `encode_payload`, `encode_config`, `encode_frame`.
use droidmirror.Base.{ℕ, ◌+◌, ◌%◌, ◌^◌, Bool, ◌||◌, List, [], ◌∷◌, ◌++◌, ltb, length, if◌then◌else◌}
use droidmirror.Base.Result.{Result, ok, ◌>>=◌, ◌>>◌, fail_if}
use droidmirror.Base.Bytes.{le_bytes, i32_bits}
use droidmirror.Proto.Types.{
  Codec, codec_byte, Message, video_frame, configure, touch, key, text, scroll, set_encoding,
  key_syn, pause_resume, reserved, message_tag, ProtoError, bad_length, max_frame_len, max_csd_len,
  u16_max, u32_max, flag_keyframe,
}

-- `n as u32` of a length.
abbrev pub as_u32 : ℕ → ℕ
as_u32 n = n % 2 ^ 32

abbrev pub flag_byte : Bool → ℕ
flag_byte keyframe = if keyframe then flag_keyframe else 0

abbrev pub bool_byte : Bool → ℕ
bool_byte on = if on then 1 else 0

unfoldable pub encode_config : Codec → ℕ → ℕ → List ℕ → Result ProtoError (List ℕ)
encode_config codec width height csd = do
  fail_if (ltb max_csd_len (length csd) || ltb u16_max (length csd))
      (bad_length (as_u32 (length csd)))
  ok (
      codec_byte codec ∷ le_bytes 2 width
      ++ (le_bytes 2 height ++ (le_bytes 2 (length csd) ++ csd)))

unfoldable pub encode_payload : Message → Result ProtoError (List ℕ)
unfolding encode_config
encode_payload (video_frame pts_us keyframe nal) = do
  fail_if (ltb max_frame_len (length nal)) (bad_length (as_u32 (length nal)))
  ok (le_bytes 8 pts_us ++ (flag_byte keyframe ∷ le_bytes 4 (length nal) ++ nal))
encode_payload (configure codec width height csd) = encode_config codec width height csd
encode_payload (touch action pointer_id x y pressure) = ok (
    action ∷ pointer_id ∷ le_bytes 4 (i32_bits x)
    ++ (le_bytes 4 (i32_bits y) ++ le_bytes 2 pressure))
encode_payload (key action keycode meta) = ok (action ∷ le_bytes 4 keycode ++ le_bytes 4 meta)
encode_payload (text s) = do
  fail_if (ltb u16_max (length s)) (bad_length (as_u32 (length s)))
  ok (le_bytes 2 (length s) ++ s)
encode_payload (scroll x y h v) = ok (
    le_bytes 4 (i32_bits x)
    ++ (le_bytes 4 (i32_bits y) ++ (le_bytes 4 (i32_bits h) ++ le_bytes 4 (i32_bits v))))
encode_payload (set_encoding bitrate max_fps max_size) =
    ok (le_bytes 4 bitrate ++ (le_bytes 4 max_fps ++ le_bytes 2 max_size))
encode_payload (key_syn keycode action) = ok (le_bytes 4 keycode ++ (action ∷ []))
encode_payload (pause_resume on) = ok (bool_byte on ∷ [])
encode_payload (reserved tag payload) = ok payload

-- `1u32.checked_add(payload.len() as u32)` fails at `u32::MAX` only.
unfoldable pub encode_frame : ℕ → List ℕ → Result ProtoError (List ℕ)
encode_frame tag payload = do
  let total_len = 1 + as_u32 (length payload)
  fail_if (ltb u32_max total_len) (bad_length u32_max)
  fail_if (ltb max_frame_len total_len) (bad_length total_len)
  ok (le_bytes 4 total_len ++ (tag ∷ payload))

unfoldable pub encode : Message → Result ProtoError (List ℕ)
encode msg = do payload ← encode_payload msg; encode_frame (message_tag msg) payload
