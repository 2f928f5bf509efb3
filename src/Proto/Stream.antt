-- ===== src/Proto/Stream.antt =====
-- Decoding from a buffer that grows: a decision is final, it uses no byte that is not there, and a
-- message that is not whole is waited for.
use droidmirror.Base.{
  ℕ, ◌+◌, ◌<◌, ◌≤◌, ◌≡◌, ◌≢◌, ◌∙◌, sym, List, [], ◌++◌, length, length-append, length-take, arith,
  some, none, inl, inr, take, drop, take-append-drop, append-nil,
}
use droidmirror.Base.Result.{waits?, ok}
use droidmirror.Base.Bytes.{read_le, slice, slice-append, get_or-append}
use droidmirror.Proto.Types.{Message, max_frame_len}
use droidmirror.Proto.IsTyped.{IsTyped, IsCanonical}
use droidmirror.Proto.Encode.{encode}
use droidmirror.Proto.Decode.{try_decode_frame}
use droidmirror.Proto.RoundTrip.{try_decode_frame-encode}

-- Once `try_decode_frame` gives a message or an error, more bytes behind the buffer change nothing.
pub try_decode_frame-append :
    (buf more : List ℕ)
    → try_decode_frame buf ≢ ok none
    → try_decode_frame (buf ++ more) ≡ try_decode_frame buf
unfolding try_decode_frame
try_decode_frame-append buf more h =
    let total = read_le (slice 0 4 buf) in
    ground (
      arith,
      length-append buf more,
      slice-append 0 4 buf more,
      slice-append 5 (4 + total) buf more,
      get_or-append buf more 4 0,
    )

-- A decoded message has used between 5 and `4 + max_frame_len` bytes, all of them in the buffer.
pub try_decode_frame_takes :
    (buf : List ℕ) {m : Message} {n : ℕ}
    → try_decode_frame buf ≡ ok (some (m, n))
    → (5 ≤ n) × (n ≤ length buf) × (n ≤ 4 + max_frame_len)
unfolding try_decode_frame
try_decode_frame_takes buf e = let total = read_le (slice 0 4 buf) in ground arith

-- `4 + max_frame_len` buffered bytes are always enough for a decision.
pub try_decode_frame_decides :
    (buf : List ℕ) → 4 + max_frame_len ≤ length buf → try_decode_frame buf ≢ ok none
unfolding try_decode_frame
try_decode_frame_decides buf h = ground arith

-- Every proper prefix of an encoded message is waited for: no message and no error.
pub try_decode_frame-take-encode :
    (m : Message) (k : ℕ) {bytes : List ℕ}
    → IsTyped m
    → IsCanonical m
    → encode m ≡ ok bytes
    → k < length bytes
    → try_decode_frame (take k bytes) ≡ ok none
try_decode_frame-take-encode m k {bytes} ht hc e hk = elim (waits? (try_decode_frame front)) [
  | inl w ↦ w
  | inr ne ↦
      absurd
        (omega (arith, try_decode_frame_takes front (sym (stable ne) ∙ whole), length-take k bytes))
]
  where
    front : List ℕ
    front = take k bytes

    whole : try_decode_frame bytes ≡ ok (some (m, length bytes))
    whole = rw append-nil at (try_decode_frame-encode m [] ht hc e)

    stable : try_decode_frame front ≢ ok none → try_decode_frame bytes ≡ try_decode_frame front
    stable ne = rw (take-append-drop k bytes) at (try_decode_frame-append front (drop k bytes) ne)
