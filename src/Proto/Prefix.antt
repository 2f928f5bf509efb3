-- ===== src/Proto/Prefix.antt =====
-- The handshake prefix: encoding then decoding it, and decoding from a buffer that grows.
use droidmirror.Base.{
  ℕ, ◌+◌, ◌-◌, ◌^◌, ◌<◌, ◌≤◌, ◌≡◌, ◌≢◌, refl, ap, leb, not, ◌&&◌, ◌∙◌, sym, false, List, [], ◌∷◌,
  ◌++◌, length, length-append, length-take, arith, some, none, Option, inl, inr, take, drop,
  take-append-drop, get_or, append_assoc, append-nil,
}
use droidmirror.Base.Result.{Result, waits?, ok, err}
use droidmirror.Base.Bytes.{
  drop-append_le, le_bytes, length-le_bytes, read_le, read_le-le_bytes, slice, slice-append,
  slice_middle, get_or_middle, get_or-append, starts_with, starts_with-append,
}
use droidmirror.Proto.RoundTrip.{codec_from_u8-codec_byte}
use droidmirror.Proto.Types.{
  Codec, h264, h265, codec_byte, Handshake, max_name_len, ProtoError, version, magic,
}
use droidmirror.Proto.IsTyped.{IsTypedHandshake}
use droidmirror.Proto.Handshake.{encode_handshake, try_decode_handshake, handshake_body}

body-append :
    (buf more : List ℕ) (codec : Codec) (c n : ℕ)
    → handshake_body buf codec c n ≢ ok none
    → handshake_body (buf ++ more) codec c n ≡ handshake_body buf codec c n
unfolding handshake_body
body-append buf more codec c n h =
    let at = 12 + c + 2 in
    ground (
      arith,
      length-append buf more,
      slice-append 6 8 buf more,
      slice-append 8 10 buf more,
      slice-append 12 (12 + c) buf more,
      slice-append at (at + n) buf more,
      get_or-append buf more 4 0,
      get_or-append buf more (at + n + 1 - 1) 0,
    )

-- A decision on the handshake is final: more bytes behind the buffer change nothing.
pub try_decode_handshake-append :
    (buf more : List ℕ)
    → try_decode_handshake buf ≢ ok none
    → try_decode_handshake (buf ++ more) ≡ try_decode_handshake buf
unfolding try_decode_handshake
try_decode_handshake-append buf more h =
    let c = read_le (slice 10 12 buf) in
    let n = read_le (slice (12 + c) (12 + c + 2) buf) in
    ground (
      arith,
      length-append buf more,
      slice-append 10 12 buf more,
      starts_with-append buf more magic,
      slice-append (12 + c) (12 + c + 2) buf more,
      get_or-append buf more 4 0,
      get_or-append buf more 5 0,
      body-append buf more h264 c n,
      body-append buf more h265 c n,
    )

-- A decoded handshake is of this version, and has used at least 15 bytes, all in the buffer.
pub try_decode_handshake_takes :
    (buf : List ℕ) {h : Handshake} {n : ℕ}
    → try_decode_handshake buf ≡ ok (some (h, n))
    → (15 ≤ n) × (n ≤ length buf) × (h.version_byte ≡ version)
unfolding try_decode_handshake handshake_body
try_decode_handshake_takes buf e = ground arith

-- A buffer in five parts: the 12 bytes of fixed size, the codec data, the length of the name, the
-- name, and the rest.
abbrev layout : List ℕ → List ℕ → List ℕ → List ℕ → List ℕ → List ℕ
layout fixed csd len name tail = fixed ++ (csd ++ (len ++ (name ++ tail)))

module _ (fixed csd len name tail : List ℕ) (f : length fixed ≡ 12) (l : length len ≡ 2) where
  csd_slice : slice 12 (12 + length csd) (layout fixed csd len name tail) ≡ csd
  csd_slice =
      slice_middle 12 (12 + length csd) fixed csd (len ++ (name ++ tail)) (sym f) (omega arith)

  len_slice : slice (12 + length csd) (12 + length csd + 2) (layout fixed csd len name tail) ≡ len
  len_slice = rw (← append_assoc fixed csd (len ++ (name ++ tail))) (
      slice_middle _ _ (fixed ++ csd) len (name ++ tail) (omega (arith, length-append fixed csd))
        (omega (arith, length-append fixed csd)))

  name_slice :
      slice
        (12 + length csd + 2)
        (12 + length csd + 2 + length name)
        (layout fixed csd len name tail)
      ≡ name
  name_slice =
      rw (← append_assoc csd len (name ++ tail), ← append_assoc fixed (csd ++ len) (name ++ tail))
        (slice_middle _ _ (fixed ++ (csd ++ len)) name tail
          (omega (arith, length-append fixed (csd ++ len), length-append csd len))
          (omega (arith, length-append fixed (csd ++ len), length-append csd len)))

abbrev fixed_part : Handshake → List ℕ
fixed_part h =
    magic
    ++ (h.version_byte ∷ codec_byte h.codec ∷ le_bytes 2 h.width
        ++ (le_bytes 2 h.height ++ le_bytes 2 (length h.csd)))

abbrev laid_out : Handshake → List ℕ → List ℕ
laid_out h rest =
    layout (fixed_part h) h.csd (le_bytes 2 (length h.device_name)) h.device_name (h.caps ∷ rest)

encode_handshake-layout :
    (h : Handshake) (rest : List ℕ) {bytes : List ℕ}
    → encode_handshake h ≡ ok bytes
    → (bytes ++ rest ≡ laid_out h rest)
      × (length bytes ≡ 12 + length h.csd + 2 + length h.device_name + 1)
      × (length h.csd < 2 ^ 16)
      × (length h.device_name ≤ max_name_len)
unfolding encode_handshake le_bytes
encode_handshake-layout h rest e = ground (
  arith,
  append_assoc h.csd (le_bytes 2 (length h.device_name) ++ (h.device_name ++ (h.caps ∷ []))) rest,
  append_assoc h.device_name (h.caps ∷ []) rest,
  length-append h.csd (le_bytes 2 (length h.device_name) ++ (h.device_name ++ (h.caps ∷ []))),
  length-append h.device_name (h.caps ∷ []),
)

caps_byte :
    (fixed csd len name rest : List ℕ) (caps n : ℕ)
    → n ≡ length fixed + length csd + length len + length name
    → get_or (layout fixed csd len name (caps ∷ rest)) n 0 ≡ caps
caps_byte fixed csd len name rest caps n e =
    rw
      (
        ← append_assoc len name (caps ∷ rest),
        ← append_assoc csd (len ++ name) (caps ∷ rest),
        ← append_assoc fixed (csd ++ (len ++ name)) (caps ∷ rest),
      )
      (get_or_middle n (fixed ++ (csd ++ (len ++ name))) caps rest 0 (
        omega (
          arith,
          length-append fixed (csd ++ (len ++ name)),
          length-append csd (len ++ name),
          length-append len name,
        )))

-- What the decoder reads from the part of fixed size.
abbrev FixedFields : Handshake → List ℕ → Type 0
FixedFields h buf =
    (leb 4 (length buf) && not (starts_with buf magic) ≡ false)
    × (get_or buf 4 0 ≡ h.version_byte)
    × (get_or buf 5 0 ≡ codec_byte h.codec)
    × (read_le (slice 6 8 buf) ≡ h.width)
    × (read_le (slice 8 10 buf) ≡ h.height)
    × (read_le (slice 10 12 buf) ≡ length h.csd)

fixed_fields :
    (h : Handshake) (behind : List ℕ)
    → IsTypedHandshake h
    → length h.csd < 2 ^ 16
    → FixedFields h (fixed_part h ++ behind)
unfolding le_bytes
fixed_fields h behind t hc = (
  ground arith,
  refl,
  refl,
  read_le-le_bytes 2 h.width (omega arith),
  read_le-le_bytes 2 h.height (omega arith),
  read_le-le_bytes 2 (length h.csd) (omega arith),
)

length-fixed_part : (h : Handshake) → length (fixed_part h) ≡ 12
unfolding le_bytes
length-fixed_part h = refl

decode_laid_out :
    (h : Handshake) (rest : List ℕ)
    → IsTypedHandshake h
    → h.version_byte ≡ version
    → length h.csd < 2 ^ 16
    → length h.device_name ≤ max_name_len
    → length (laid_out h rest) ≡ 12 + length h.csd + 2 + length h.device_name + 1 + length rest
    → try_decode_handshake (laid_out h rest)
      ≡ ok (some (h, 12 + length h.csd + 2 + length h.device_name + 1))
unfolding try_decode_handshake handshake_body
decode_laid_out h rest t v hc hn hl = ground (
  arith,
  fixed_fields h
      (h.csd ++ (le_bytes 2 (length h.device_name) ++ (h.device_name ++ (h.caps ∷ rest)))),
  csd_slice fixed h.csd len h.device_name (h.caps ∷ rest) fixed_12 len_2,
  len_slice fixed h.csd len h.device_name (h.caps ∷ rest) fixed_12 len_2,
  name_slice fixed h.csd len h.device_name (h.caps ∷ rest) fixed_12 len_2,
  read_le-le_bytes 2 (length h.device_name),
  codec_from_u8-codec_byte h.codec,
  caps_byte fixed h.csd len h.device_name rest h.caps
      (12 + length h.csd + 2 + length h.device_name + 1 - 1) (omega (arith, fixed_12, len_2)),
)
  where
    fixed : List ℕ
    fixed = fixed_part h

    fixed_12 : length fixed ≡ 12
    fixed_12 = length-fixed_part h

    len : List ℕ
    len = le_bytes 2 (length h.device_name)

    len_2 : length len ≡ 2
    len_2 = length-le_bytes 2 (length h.device_name)

-- Decoding an encoded handshake of this version gives the handshake and its length, whatever
-- follows it.
pub try_decode_handshake-encode :
    (h : Handshake) (rest : List ℕ) {bytes : List ℕ}
    → IsTypedHandshake h
    → h.version_byte ≡ version
    → encode_handshake h ≡ ok bytes
    → try_decode_handshake (bytes ++ rest) ≡ ok (some (h, length bytes))
try_decode_handshake-encode h rest {bytes} t v e =
    let (same, count, hc, hn) = encode_handshake-layout h rest e in
    rw (same, count)
      (decode_laid_out h rest t v hc hn (omega (arith, ap length same, length-append bytes rest)))

-- Every proper prefix of an encoded handshake of this version is waited for.
pub try_decode_handshake-take-encode :
    (h : Handshake) (k : ℕ) {bytes : List ℕ}
    → IsTypedHandshake h
    → h.version_byte ≡ version
    → encode_handshake h ≡ ok bytes
    → k < length bytes
    → try_decode_handshake (take k bytes) ≡ ok none
try_decode_handshake-take-encode h k {bytes} t v e hk = elim (waits? (try_decode_handshake front)) [
  | inl w ↦ w
  | inr ne ↦ absurd (
      omega
        (arith, try_decode_handshake_takes front (sym (stable ne) ∙ whole), length-take k bytes))
]
  where
    front : List ℕ
    front = take k bytes

    whole : try_decode_handshake bytes ≡ ok (some (h, length bytes))
    whole = rw append-nil at (try_decode_handshake-encode h [] t v e)

    stable :
        try_decode_handshake front ≢ ok none
        → try_decode_handshake bytes ≡ try_decode_handshake front
    stable ne =
        rw (take-append-drop k bytes) at (try_decode_handshake-append front (drop k bytes) ne)

-- The three outcomes of the handshake decoder.
pub data Greeting (buf : List ℕ) : Type 0 where
  waits : try_decode_handshake buf ≡ ok none → Greeting buf
  gives : (h : Handshake) (n : ℕ) → try_decode_handshake buf ≡ ok (some (h, n)) → Greeting buf
  fails : (e : ProtoError) → try_decode_handshake buf ≡ err e → Greeting buf

pub greeting : (buf : List ℕ) → Greeting buf
greeting buf = go (try_decode_handshake buf) refl
  where
    go :
        (r : Result ProtoError (Option (Handshake × ℕ)))
        → try_decode_handshake buf ≡ r
        → Greeting buf
    go (ok none) e = Greeting.waits e
    go (ok (some (h, n))) e = Greeting.gives h n e
    go (err x) e = Greeting.fails x e

pub handshake_gives-append :
    (buf more : List ℕ) {h : Handshake} {n : ℕ}
    → try_decode_handshake buf ≡ ok (some (h, n))
    → (try_decode_handshake (buf ++ more) ≡ ok (some (h, n)))
      × (drop n (buf ++ more) ≡ drop n buf ++ more)
handshake_gives-append buf more {n = n} e = (
  try_decode_handshake-append buf more (λ w. cc (w, e)) ∙ e,
  drop-append_le n buf more (omega (arith, try_decode_handshake_takes buf e)),
)

pub handshake_fails-append :
    (buf more : List ℕ) {x : ProtoError}
    → try_decode_handshake buf ≡ err x
    → try_decode_handshake (buf ++ more) ≡ err x
handshake_fails-append buf more e = try_decode_handshake-append buf more (λ w. cc (w, e)) ∙ e
