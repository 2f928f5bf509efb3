-- ===== src/Proto/RoundTrip.antt =====
-- Encoding a message, then decoding it, with more bytes behind it; and decoding what is not whole.
mod Payload
pub use Payload.{codec_from_u8-codec_byte}
use droidmirror.Base.{
  ℕ, ◌+◌, ◌^◌, ◌<◌, ◌≤◌, ◌≡◌, refl, ap, ◌∙◌, sym, Bool, true, false, List, [], ◌∷◌, ◌++◌, length,
  length-append, arith, some, none, Option, inl, inr, take,
}
use droidmirror.Base.Result.{Result, ok, err, ◌>>=◌, >>=-eq-ok}
use droidmirror.Base.Bytes.{
  le_bytes, read_le, read_le-le_bytes, length-le_bytes, take-append_length, slice, slice-append,
  get_or-append,
}
use droidmirror.Proto.Types.{
  Message, video_frame, configure, touch, key, text, scroll, set_encoding, key_syn, pause_resume,
  reserved, message_tag, ProtoError, max_frame_len,
}
use droidmirror.Proto.IsTyped.{IsTyped, IsCanonical}
use droidmirror.Proto.Encode.{encode_payload, encode_frame, encode}
use droidmirror.Proto.Decode.{decode_payload, try_decode_frame}
use Payload.{
  video_payload, configure_payload, touch_payload, key_payload, text_payload, scroll_payload,
  set_encoding_payload, key_syn_payload, pause_payload,
}

-- Each payload is read back, and is short enough to be counted in a `u32`.
decode_payload-encode_payload :
    (m : Message) {p : List ℕ}
    → IsTyped m
    → IsCanonical m
    → encode_payload m ≡ ok p
    → (decode_payload (message_tag m) p ≡ ok m) × (length p < 2 ^ 32)
unfolding encode_payload le_bytes
decode_payload-encode_payload (video_frame pts k nal) ht hc e =
    ground (arith, video_payload pts k nal)
decode_payload-encode_payload (configure c w h csd) ht hc e =
    ground (arith, configure_payload c w h csd)
decode_payload-encode_payload (touch a i x y p) ht hc e = ground (arith, touch_payload a i x y p)
decode_payload-encode_payload (key a k m) ht hc e = ground (arith, key_payload a k m)
decode_payload-encode_payload (text s) ht hc e = ground (arith, text_payload s)
decode_payload-encode_payload (scroll x y h v) ht hc e = ground (arith, scroll_payload x y h v)
decode_payload-encode_payload (set_encoding b f m) ht hc e =
    ground (arith, set_encoding_payload b f m)
decode_payload-encode_payload (key_syn k a) ht hc e = ground (arith, key_syn_payload k a)
decode_payload-encode_payload (pause_resume on) ht hc e = ground (arith, pause_payload on)
decode_payload-encode_payload (reserved t p) ht hc e = unfold decode_payload in ground arith

-- A frame that `encode_frame` wrote is taken apart as it was put together.
frame_layout :
    (tag : ℕ) (p rest : List ℕ) {bytes : List ℕ}
    → length p < 2 ^ 32
    → encode_frame tag p ≡ ok bytes
    → (try_decode_frame (bytes ++ rest)
        ≡ (decode_payload tag p >>= λ m. ok (some (m, length bytes))))
      × (length bytes ≡ 5 + length p)
unfolding encode_frame try_decode_frame le_bytes
frame_layout tag p rest h e =
    ground
      (arith, read_le-le_bytes 4 (1 + length p), take-append_length p rest, length-append p rest)

-- Decoding an encoded message gives the message and the length of its frame, whatever follows it.
pub try_decode_frame-encode :
    (m : Message) (rest : List ℕ) {bytes : List ℕ}
    → IsTyped m
    → IsCanonical m
    → encode m ≡ ok bytes
    → try_decode_frame (bytes ++ rest) ≡ ok (some (m, length bytes))
unfolding encode
try_decode_frame-encode m rest ht hc e =
    let (p, ep, ef) = >>=-eq-ok (encode_payload m) _ e in
    let (d, hl) = decode_payload-encode_payload m ht hc ep in
    (frame_layout (message_tag m) p rest hl ef).0 ∙ rw d
