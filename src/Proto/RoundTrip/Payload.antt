-- ===== src/Proto/RoundTrip/Payload.antt =====
-- `decode_payload` reads back each payload that `encode_payload` writes.
use droidmirror.Base.{ℕ, ◌^◌, ◌<◌, ◌≡◌, refl, Bool, true, List, [], ◌∷◌, ◌++◌, length, arith, some}
use droidmirror.Base.Result.{ok}
use droidmirror.Base.Bytes.{
  le_bytes, read_le, read_le-le_bytes, i32_bits, i32_of_bits, i32_of_bits-i32_bits, i32_bits-lt,
  IsI32,
}
use droidmirror.Base.Utf8.{is_utf8}
use droidmirror.Base.Int.{ℤ}
use droidmirror.Proto.Types.{
  Codec, h264, h265, codec_byte, codec_from_u8, video_frame, configure, touch, key, text, scroll,
  set_encoding, key_syn, pause_resume, tag_video_frame, tag_configure, tag_touch, tag_key, tag_text,
  tag_scroll, tag_set_encoding, tag_key_syn, tag_pause,
}
use droidmirror.Proto.Encode.{flag_byte, bool_byte}
use droidmirror.Proto.Decode.{
  decode_video, decode_configure, decode_touch, decode_key, decode_text, decode_scroll_msg,
  decode_set_encoding, decode_key_syn, decode_pause, decode_payload,
}

i32_read : (z : ℤ) → IsI32 z → i32_of_bits (read_le (le_bytes 4 (i32_bits z))) ≡ z
i32_read z h = rw (read_le-le_bytes 4 (i32_bits z) (i32_bits-lt z)) (i32_of_bits-i32_bits z h)

pub key_payload :
    (action keycode meta : ℕ)
    → keycode < 2 ^ 32
    → meta < 2 ^ 32
    → decode_payload tag_key (action ∷ le_bytes 4 keycode ++ le_bytes 4 meta)
      ≡ ok (key action keycode meta)
unfolding decode_payload decode_key le_bytes
key_payload a k m hk hm = ground (arith, read_le-le_bytes 4 k, read_le-le_bytes 4 m)

pub video_payload :
    (pts : ℕ) (keyframe : Bool) (nal : List ℕ)
    → pts < 2 ^ 64
    → length nal < 2 ^ 32
    → decode_payload tag_video_frame
        (le_bytes 8 pts ++ (flag_byte keyframe ∷ le_bytes 4 (length nal) ++ nal))
      ≡ ok (video_frame pts keyframe nal)
unfolding decode_payload decode_video le_bytes
video_payload pts k nal hp hn =
    ground (arith, read_le-le_bytes 8 pts, read_le-le_bytes 4 (length nal))

pub codec_from_u8-codec_byte : (codec : Codec) → codec_from_u8 (codec_byte codec) ≡ some codec
codec_from_u8-codec_byte h264 = refl
codec_from_u8-codec_byte h265 = refl

pub configure_payload :
    (codec : Codec) (width height : ℕ) (csd : List ℕ)
    → width < 2 ^ 16
    → height < 2 ^ 16
    → length csd < 2 ^ 16
    → decode_payload tag_configure (
        codec_byte codec ∷ le_bytes 2 width
        ++ (le_bytes 2 height ++ (le_bytes 2 (length csd) ++ csd)))
      ≡ ok (configure codec width height csd)
unfolding decode_payload decode_configure le_bytes
configure_payload c w h csd hw hh hc = ground (
  arith,
  codec_from_u8-codec_byte c,
  read_le-le_bytes 2 w,
  read_le-le_bytes 2 h,
  read_le-le_bytes 2 (length csd),
)

pub touch_payload :
    (action pointer_id : ℕ) (x y : ℤ) (pressure : ℕ)
    → IsI32 x
    → IsI32 y
    → pressure < 2 ^ 16
    → decode_payload tag_touch (
        action ∷ pointer_id ∷ le_bytes 4 (i32_bits x)
        ++ (le_bytes 4 (i32_bits y) ++ le_bytes 2 pressure))
      ≡ ok (touch action pointer_id x y pressure)
unfolding decode_payload decode_touch le_bytes
touch_payload a i x y p hx hy hp =
    ground (arith, i32_read x hx, i32_read y hy, read_le-le_bytes 2 p)

pub text_payload :
    (s : List ℕ)
    → length s < 2 ^ 16
    → is_utf8 s ≡ true
    → decode_payload tag_text (le_bytes 2 (length s) ++ s) ≡ ok (text s)
unfolding decode_payload decode_text le_bytes
text_payload s hs hu = ground (arith, read_le-le_bytes 2 (length s))

pub scroll_payload :
    (x y h v : ℤ)
    → IsI32 x
    → IsI32 y
    → IsI32 h
    → IsI32 v
    → decode_payload tag_scroll (
        le_bytes 4 (i32_bits x)
        ++ (le_bytes 4 (i32_bits y) ++ (le_bytes 4 (i32_bits h) ++ le_bytes 4 (i32_bits v))))
      ≡ ok (scroll x y h v)
unfolding decode_payload decode_scroll_msg le_bytes
scroll_payload x y h v hx hy hh hv =
    ground (arith, i32_read x hx, i32_read y hy, i32_read h hh, i32_read v hv)

pub set_encoding_payload :
    (bitrate max_fps max_size : ℕ)
    → bitrate < 2 ^ 32
    → max_fps < 2 ^ 32
    → max_size < 2 ^ 16
    → decode_payload tag_set_encoding
        (le_bytes 4 bitrate ++ (le_bytes 4 max_fps ++ le_bytes 2 max_size))
      ≡ ok (set_encoding bitrate max_fps max_size)
unfolding decode_payload decode_set_encoding le_bytes
set_encoding_payload b f m hb hf hm =
    ground (arith, read_le-le_bytes 4 b, read_le-le_bytes 4 f, read_le-le_bytes 2 m)

pub key_syn_payload :
    (keycode action : ℕ)
    → keycode < 2 ^ 32
    → decode_payload tag_key_syn (le_bytes 4 keycode ++ (action ∷ [])) ≡ ok (key_syn keycode action)
unfolding decode_payload decode_key_syn le_bytes
key_syn_payload k a hk = ground (arith, read_le-le_bytes 4 k)

pub pause_payload :
    (on : Bool) → decode_payload tag_pause (bool_byte on ∷ []) ≡ ok (pause_resume on)
unfolding decode_payload decode_pause
pause_payload on = ground arith
