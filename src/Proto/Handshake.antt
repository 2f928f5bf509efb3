-- ===== src/Proto/Handshake.antt =====
-- crates/proto/src/lib.rs: `encode_handshake` and `try_decode_handshake`, the prefix of the stream.
use droidmirror.Base.{
  ℕ, ◌+◌, ◌-◌, ◌&&◌, ◌||◌, not, Option, none, some, List, [], ◌∷◌, ◌++◌, ltb, leb, ◌==◌, length,
  get_or, if◌then◌else◌,
}
use droidmirror.Base.Result.{Result, ok, err, ◌>>=◌, ◌>>◌, fail_if, ok_or}
use droidmirror.Base.Bytes.{slice, starts_with, le_bytes, read_le}
use droidmirror.Base.Utf8.{is_utf8}
use droidmirror.Proto.Types.{
  Codec, codec_byte, codec_from_u8, Handshake, ProtoError, bad_magic, bad_version, bad_codec,
  bad_length, bad_utf8, magic, version, max_csd_len, max_name_len, u16_max,
}
use droidmirror.Proto.Encode.{as_u32}

unfoldable pub encode_handshake : Handshake → Result ProtoError (List ℕ)
encode_handshake h = do
  fail_if (ltb max_csd_len (length h.csd) || ltb u16_max (length h.csd))
      (bad_length (as_u32 (length h.csd)))
  fail_if (ltb max_name_len (length h.device_name) || ltb u16_max (length h.device_name))
      (bad_length (as_u32 (length h.device_name)))
  ok (
      magic
      ++ (h.version_byte ∷ codec_byte h.codec ∷ le_bytes 2 h.width
          ++ (le_bytes 2 h.height
              ++ (le_bytes 2 (length h.csd)
                  ++ (h.csd
                      ++ (le_bytes 2 (length h.device_name)
                          ++ (h.device_name ++ (h.caps ∷ []))))))))

-- What follows the two lengths: the whole buffer is there, or `ok none`.
unfoldable pub handshake_body :
    List ℕ → Codec → (csd_len name_len : ℕ) → Result ProtoError (Option (Handshake × ℕ))
handshake_body buf codec csd_len name_len =
    let name_at = 12 + csd_len + 2 in
    let total = name_at + name_len + 1 in
    if ltb (length buf) total
    then ok none
    else if is_utf8 (slice name_at (name_at + name_len) buf)
    then ok (
        some (
          record {
            version_byte = get_or buf 4 0;
            codec = codec;
            width = read_le (slice 6 8 buf);
            height = read_le (slice 8 10 buf);
            csd = slice 12 (12 + csd_len) buf;
            device_name = slice name_at (name_at + name_len) buf;
            caps = get_or buf (total - 1) 0;
          },
          total,
        ))
    else err bad_utf8

unfoldable pub try_decode_handshake : List ℕ → Result ProtoError (Option (Handshake × ℕ))
try_decode_handshake buf = do
  fail_if (leb 4 (length buf) && not (starts_with buf magic)) bad_magic
  if ltb (length buf) 12 then ok none else do
    fail_if (not (get_or buf 4 0 == version)) (bad_version (get_or buf 4 0))
    codec ← ok_or (codec_from_u8 (get_or buf 5 0)) (bad_codec (get_or buf 5 0))
    let csd_len = read_le (slice 10 12 buf)
    fail_if (ltb max_csd_len csd_len) (bad_length csd_len)
    let name_len = read_le (slice (12 + csd_len) (12 + csd_len + 2) buf)
    if ltb (length buf) (12 + csd_len + 2) then ok none else do
      fail_if (ltb max_name_len name_len) (bad_length name_len)
      handshake_body buf codec csd_len name_len
