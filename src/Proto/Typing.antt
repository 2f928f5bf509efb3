-- ===== src/Proto/Typing.antt =====
-- What `try_decode_frame` gives has the ranges of its field types, and no interpreted tag under
-- `Reserved`.
use droidmirror.Base.{
  ℕ, ◌-◌, subst, ◌^◌, ◌<◌, ◌≤◌, ◌≡◌, ◌∙◌, List, length, get_or, arith, some, drop,
}
use droidmirror.Base.Result.{Result, ok, err}
use droidmirror.Base.Bytes.{
  read_le, slice, length-slice, All, IsByte, All-take, All-drop, All-get_or, i32_of_bits-IsI32,
  read_le-lt,
}
use droidmirror.Proto.Types.{Message, ProtoError}
use droidmirror.Proto.IsTyped.{IsTyped, IsCanonical}
use droidmirror.Proto.Decode.{
  decode_video, decode_configure, decode_touch, decode_key, decode_text, decode_scroll_msg,
  decode_set_encoding, decode_key_syn, decode_pause, decode_payload, try_decode_frame,
}

slice-IsByte : (i j : ℕ) (p : List ℕ) → All IsByte p → All IsByte (slice i j p)
slice-IsByte i j p h = All-take IsByte (j - i) (drop i p) (All-drop IsByte i p h)

uint-lt :
    (i j k : ℕ) (p : List ℕ)
    → All IsByte p
    → i ≤ j
    → j ≤ length p
    → j - i ≡ k
    → read_le (slice i j p) < 256 ^ k
uint-lt i j k p h hi hj e =
    subst (λ t. read_le (slice i j p) < 256 ^ t) (length-slice i j p hi hj ∙ e)
      (read_le-lt (slice i j p) (slice-IsByte i j p h))

-- What a decoder's result must satisfy, if it is a message.
abbrev Gives : (Message → Type 0) → Result ProtoError Message → Type 0
Gives P (ok m) = P m
Gives P (err e) = Unit

abbrev pub IsSound : Message → Type 0
IsSound m = IsTyped m × IsCanonical m

module _ (p : List ℕ) (h : All IsByte p) where
  video-IsTyped : Gives IsSound (decode_video p)
  unfolding decode_video
  video-IsTyped = ground (arith, uint-lt 0 8 8 p h, All-drop IsByte 13 p h)

  configure-IsTyped : Gives IsSound (decode_configure p)
  unfolding decode_configure
  configure-IsTyped = ground (arith, uint-lt 1 3 2 p h, uint-lt 3 5 2 p h, All-drop IsByte 7 p h)

  touch-IsTyped : Gives IsSound (decode_touch p)
  unfolding decode_touch
  touch-IsTyped = ground (
    arith,
    uint-lt 2 6 4 p h,
    uint-lt 6 10 4 p h,
    uint-lt 10 12 2 p h,
    All-get_or IsByte p 0 0 h,
    All-get_or IsByte p 1 0 h,
    i32_of_bits-IsI32 (read_le (slice 2 6 p)),
    i32_of_bits-IsI32 (read_le (slice 6 10 p)),
  )

  key-IsTyped : Gives IsSound (decode_key p)
  unfolding decode_key
  key-IsTyped = ground (arith, uint-lt 1 5 4 p h, uint-lt 5 9 4 p h, All-get_or IsByte p 0 0 h)

  text-IsTyped : Gives IsSound (decode_text p)
  unfolding decode_text
  text-IsTyped = ground (arith, All-drop IsByte 2 p h)

  scroll-IsTyped : Gives IsSound (decode_scroll_msg p)
  unfolding decode_scroll_msg
  scroll-IsTyped = ground (
    arith,
    uint-lt 0 4 4 p h,
    uint-lt 4 8 4 p h,
    uint-lt 8 12 4 p h,
    uint-lt 12 16 4 p h,
    i32_of_bits-IsI32 (read_le (slice 0 4 p)),
    i32_of_bits-IsI32 (read_le (slice 4 8 p)),
    i32_of_bits-IsI32 (read_le (slice 8 12 p)),
    i32_of_bits-IsI32 (read_le (slice 12 16 p)),
  )

  set_encoding-IsTyped : Gives IsSound (decode_set_encoding p)
  unfolding decode_set_encoding
  set_encoding-IsTyped = ground (arith, uint-lt 0 4 4 p h, uint-lt 4 8 4 p h, uint-lt 8 10 2 p h)

  key_syn-IsTyped : Gives IsSound (decode_key_syn p)
  unfolding decode_key_syn
  key_syn-IsTyped = ground (arith, uint-lt 0 4 4 p h, All-get_or IsByte p 4 0 h)

  pause-IsTyped : Gives IsSound (decode_pause p)
  unfolding decode_pause
  pause-IsTyped = ground arith

  payload-IsTyped :
      (tag : ℕ) → IsByte tag → length p < 2 ^ 32 → Gives IsSound (decode_payload tag p)
  unfolding decode_payload
  payload-IsTyped tag ht hl = ground (
    arith, video-IsTyped, configure-IsTyped, touch-IsTyped, key-IsTyped, text-IsTyped,
    scroll-IsTyped, set_encoding-IsTyped, key_syn-IsTyped, pause-IsTyped,
  )

Gives-ok :
    (P : Message → Type 0) (r : Result ProtoError Message) {m : Message}
    → Gives P r
    → r ≡ ok m
    → P m
Gives-ok P (ok m') g e = subst P (cc) g
Gives-ok P (err x) g e = cc

try_decode_frame_inv :
    (buf : List ℕ) {m : Message} {n : ℕ}
    → try_decode_frame buf ≡ ok (some (m, n))
    → (decode_payload (get_or buf 4 0) (slice 5 n buf) ≡ ok m)
      × (5 ≤ n)
      × (n ≤ length buf)
      × (n < 2 ^ 32)
unfolding try_decode_frame
try_decode_frame_inv buf e = let total = read_le (slice 0 4 buf) in ground arith

-- A message decoded from bytes has the ranges of its field types, and is not an interpreted kind
-- in the guise of `Reserved`.
pub try_decode_frame-IsTyped :
    (buf : List ℕ) {m : Message} {n : ℕ}
    → All IsByte buf
    → try_decode_frame buf ≡ ok (some (m, n))
    → IsTyped m × IsCanonical m
try_decode_frame-IsTyped buf {n = n} h e =
    let (d, lo, hi, small) = try_decode_frame_inv buf e in
    let tag-IsByte = All-get_or IsByte buf 4 0 h (omega arith) in
    let short : length (slice 5 n buf) < 2 ^ 32 = omega (arith, length-slice 5 n buf lo hi) in
    Gives-ok IsSound _
      (payload-IsTyped (slice 5 n buf) (slice-IsByte 5 n buf h) (get_or buf 4 0) tag-IsByte short) d
