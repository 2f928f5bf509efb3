-- ===== src/Proto/Tests.antt =====
-- Runs of the wire format's theorems on small messages.
use droidmirror.Base.{
  ℕ, ◌+◌, ◌≤◌, ◌≡◌, ◌≢◌, inl, refl, arith, none, some, List, [], ◌∷◌, ◌++◌, length, take, replicate,
}
use droidmirror.Base.Result.{ok}
use droidmirror.Base.Bytes.{le_bytes, read_le}
use droidmirror.Base.Text.{ascii}
use droidmirror.Base.Utf8.{is_utf8}
use droidmirror.Proto.Types.{h264, h265, Handshake, Message, max_frame_len}
use droidmirror.Proto.IsTyped.{IsTyped, IsCanonical, IsTypedHandshake}
use droidmirror.Proto.Encode.{encode_payload, encode_frame, encode}
use droidmirror.Proto.Decode.{decode_payload, decode_key, try_decode_frame}
use droidmirror.Proto.Handshake.{encode_handshake, try_decode_handshake}
use droidmirror.Proto.RoundTrip.{try_decode_frame-encode}
use droidmirror.Proto.Stream.{try_decode_frame_takes, try_decode_frame-take-encode}
use droidmirror.Proto.Typing.{try_decode_frame-IsTyped}
use droidmirror.Proto.Prefix.{try_decode_handshake-encode, try_decode_handshake-take-encode}
use droidmirror.Proto.Fits.{IsFrameOf, encode-Fits}
use droidmirror.Proto.Frames.{frames, continue_with, IsEncoded, frames-append}
use droidmirror.Proto.AnnexB.{to_annex_b, has_start_code}
use droidmirror.Proto.AnnexB.Avcc.{avcc, annex_b, to_annex_b-avcc, to_annex_b-avcc_mistaken}

abbrev pub home : Message
home = Message.key 0 3 0

abbrev pub home_bytes : List ℕ
home_bytes = 10 ∷ 0 ∷ 0 ∷ 0 ∷ 0x11 ∷ 0 ∷ 3 ∷ 0 ∷ 0 ∷ 0 ∷ 0 ∷ 0 ∷ 0 ∷ 0 ∷ []

pub home_encoded : encode home ≡ ok home_bytes
unfolding encode encode_payload encode_frame le_bytes
home_encoded = refl

abbrev pub phone : Handshake
phone = record {
  version_byte = 1;
  codec = h265;
  width = 1080;
  height = 2400;
  csd = 0 ∷ 0 ∷ 0 ∷ 1 ∷ 64 ∷ [];
  device_name = ascii "pixel";
  caps = 3;
}

abbrev pub phone_bytes : List ℕ
phone_bytes =
    ascii "DMIR"
    ++ (1 ∷ 2 ∷ 56 ∷ 4 ∷ 96 ∷ 9 ∷ 5 ∷ 0 ∷ 0 ∷ 0 ∷ 0 ∷ 1 ∷ 64 ∷ 5 ∷ 0 ∷ (ascii "pixel" ++ (3 ∷ [])))

pub phone_encoded : encode_handshake phone ≡ ok phone_bytes
unfolding encode_handshake le_bytes
phone_encoded = refl

pub phone_typed : IsTypedHandshake phone
unfolding is_utf8
phone_typed = ground arith

pub homes-IsEncoded : IsEncoded (home ∷ home ∷ []) (home_bytes ++ home_bytes)
homes-IsEncoded = (
  home_bytes,
  home_bytes,
  (omega arith, omega arith, omega arith),
  tt,
  home_encoded,
  (home_bytes, [], (omega arith, omega arith, omega arith), tt, home_encoded, refl, refl),
  refl,
)

try_decode_frame-encode_example :
    try_decode_frame (home_bytes ++ (7 ∷ [])) ≡ ok (some (home, length home_bytes))
try_decode_frame-encode_example =
    try_decode_frame-encode home (7 ∷ []) (omega arith, omega arith, omega arith) tt home_encoded

decides : try_decode_frame home_bytes ≢ ok none
unfolding try_decode_frame decode_payload decode_key read_le
decides e = ground (arith, e)

home_decoded : try_decode_frame home_bytes ≡ ok (some (home, 14))
home_decoded =
    try_decode_frame-encode home [] (omega arith, omega arith, omega arith) tt home_encoded

try_decode_frame_takes_example : (5 ≤ 14) × (14 ≤ length home_bytes) × (14 ≤ 4 + max_frame_len)
try_decode_frame_takes_example = try_decode_frame_takes home_bytes home_decoded

try_decode_frame-take-encode_example : try_decode_frame (take 6 home_bytes) ≡ ok none
try_decode_frame-take-encode_example =
    try_decode_frame-take-encode home 6 (omega arith, omega arith, omega arith) tt home_encoded
      (omega arith)

try_decode_frame-IsTyped_example : IsTyped home × IsCanonical home
try_decode_frame-IsTyped_example = try_decode_frame-IsTyped home_bytes (omega arith) home_decoded

try_decode_handshake-encode_example :
    try_decode_handshake (phone_bytes ++ home_bytes) ≡ ok (some (phone, length phone_bytes))
try_decode_handshake-encode_example =
    try_decode_handshake-encode phone home_bytes phone_typed refl phone_encoded

abbrev web_bytes : List ℕ
web_bytes = ascii "HTTP/1.1 400 Bad"

not_ours : try_decode_handshake web_bytes ≢ ok none
unfolding try_decode_handshake
not_ours e = ground (arith, e)

try_decode_handshake-take-encode_example : try_decode_handshake (take 13 phone_bytes) ≡ ok none
try_decode_handshake-take-encode_example =
    try_decode_handshake-take-encode phone 13 phone_typed refl phone_encoded (omega arith)

frames-append_example :
    frames (home_bytes ++ home_bytes) ≡ continue_with home_bytes (frames home_bytes)
frames-append_example = frames-append home_bytes home_bytes

encode-Fits_example : IsFrameOf 14 (encode home)
encode-Fits_example = encode-Fits home tt

abbrev long_csd : Message
long_csd = Message.configure h264 16 16 (replicate 65536 0)

abbrev sps : List ℕ
sps = 0x67 ∷ 0x42 ∷ 0 ∷ []

to_annex_b-avcc_example : to_annex_b (avcc (sps ∷ sps ∷ [])) ≡ annex_b (sps ∷ sps ∷ [])
to_annex_b-avcc_example =
    to_annex_b-avcc sps (sps ∷ []) (omega arith) (unfold has_start_code in refl)

to_annex_b-avcc_mistaken_example :
    to_annex_b (avcc ((9 ∷ []) ∷ sps ∷ [])) ≡ avcc ((9 ∷ []) ∷ sps ∷ [])
to_annex_b-avcc_mistaken_example =
    to_annex_b-avcc_mistaken (9 ∷ []) (sps ∷ []) (omega arith) (inl refl)
