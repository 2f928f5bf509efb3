-- ===== src/Proto/Fits.antt =====
-- Which messages `encode` takes: the length limits, exactly.
use droidmirror.Base.{ℕ, ◌+◌, ◌≤◌, ◌≡◌, List, length, arith}
use droidmirror.Base.Result.{Result, ok, err}
use droidmirror.Base.Bytes.{le_bytes}
use droidmirror.Proto.Types.{
  Message, video_frame, configure, touch, key, text, scroll, set_encoding, key_syn, pause_resume,
  reserved, ProtoError, bad_length, max_frame_len, u16_max,
}
use droidmirror.Proto.IsTyped.{IsCanonical}
use droidmirror.Proto.Encode.{encode_payload, encode_config, encode_frame, encode}

-- The length of the payload.
abbrev pub payload_len : Message → ℕ
payload_len (video_frame pts_us keyframe nal) = 13 + length nal
payload_len (configure codec width height csd) = 7 + length csd
payload_len (touch action pointer_id x y pressure) = 12
payload_len (key action keycode meta) = 9
payload_len (text s) = 2 + length s
payload_len (scroll x y h v) = 16
payload_len (set_encoding bitrate max_fps max_size) = 10
payload_len (key_syn keycode action) = 5
payload_len (pause_resume on) = 1
payload_len (reserved tag payload) = length payload

abbrev pub Fits : Message → Type 0
Fits (video_frame pts_us keyframe nal) = 14 + length nal ≤ max_frame_len
Fits (configure codec width height csd) = length csd ≤ u16_max
Fits (text s) = length s ≤ u16_max
Fits (reserved tag payload) = 1 + length payload ≤ max_frame_len
Fits _ = Unit

-- The result is a frame of `n` bytes.
abbrev pub IsFrameOf : ℕ → Result ProtoError (List ℕ) → Type 0
IsFrameOf n (ok bytes) = length bytes ≡ n
IsFrameOf n (err e) = ⊥

-- The result is the error `BadLength`.
abbrev pub IsBadLength : Result ProtoError (List ℕ) → Type 0
IsBadLength (err (bad_length n)) = Unit
IsBadLength _ = ⊥

-- A message within the limits is encoded, into 5 bytes more than its payload.
pub encode-Fits : (m : Message) → Fits m → IsFrameOf (5 + payload_len m) (encode m)
unfolding encode encode_payload encode_config encode_frame le_bytes
encode-Fits (video_frame pts_us keyframe nal) h = ground arith
encode-Fits m h = ground arith

-- A message beyond the limits is refused with `BadLength`; a `Reserved` payload only if its length
-- fits the `u32` that it is cast to.
pub encode-not_Fits : (m : Message) → IsCanonical m → ¬ Fits m → IsBadLength (encode m)
unfolding encode encode_payload encode_config encode_frame le_bytes
encode-not_Fits (video_frame pts_us keyframe nal) hc h = ground arith
encode-not_Fits m hc h = ground arith
