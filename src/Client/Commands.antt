-- ===== src/Client/Commands.antt =====
-- What the commands give the host to write.
use droidmirror.Base.{
  ℕ, ◌+◌, ◌-◌, ◌^◌, ◌≤◌, ◌<◌, ◌≡◌, refl, Bool, List, [], ◌++◌, length, some, none, Option, arith,
}
use droidmirror.Base.Result.{Result, ok, err}
use droidmirror.Base.Int.{ℤ, pos, negsuc, ◌≤ℤ◌}
use droidmirror.Base.Bytes.{IsI32}
use droidmirror.Base.Float.{Float, CastLaws}
use droidmirror.Proto.Types.{Message, ProtoError, u16_max}
use droidmirror.Proto.IsTyped.{IsTyped, IsCanonical, IsText}
use droidmirror.Proto.Fits.{Fits, encode-Fits, encode-not_Fits, IsFrameOf, payload_len, IsBadLength}
use droidmirror.Proto.Encode.{encode as encode_message}
use droidmirror.Proto.Decode.{try_decode_frame}
use droidmirror.Proto.RoundTrip.{try_decode_frame-encode}
use droidmirror.Proto.Scale.{encode_pressure, encode_scroll}
use droidmirror.Client.State.{TouchAction, KeyAction, touch_byte, key_byte, Client}
use droidmirror.Client.Send.{
  send_at, frame_aspect, frame_point, or_empty, encode, key, nav, text, set_encoding, pause,
  map_to_device, touch, scroll, pixel,
}

-- The bytes are one whole frame of the message.
abbrev pub Carries : Message → List ℕ → Type 0
Carries m bytes = (rest : List ℕ) → try_decode_frame (bytes ++ rest) ≡ ok (some (m, length bytes))

encode-Carries : (m : Message) → IsTyped m → IsCanonical m → Fits m → Carries m (encode m)
unfolding encode
encode-Carries m t c h rest = go (encode_message m) refl (encode-Fits m h)
  where
    go :
        (r : Result ProtoError (List ℕ))
        → encode_message m ≡ r
        → IsFrameOf (5 + payload_len m) r
        → try_decode_frame (encode m ++ rest) ≡ ok (some (m, length (encode m)))
    go (ok bytes) e f = rw e (try_decode_frame-encode m rest t c e)
    go (err x) e f = elim f [ ]

key_byte-lt : (k : KeyAction) → key_byte k < 256
key_byte-lt KeyAction.down = omega arith
key_byte-lt KeyAction.up = omega arith

touch_byte-lt : (a : TouchAction) → touch_byte a < 256
touch_byte-lt TouchAction.down = omega arith
touch_byte-lt a = omega arith

refused : (r : Result ProtoError (List ℕ)) → IsBadLength r → or_empty r ≡ []
refused (ok bytes) h = elim h [ ]
refused (err e) h = refl

-- `key`, `nav`, `set_encoding` and `pause` give one frame with their message, for arguments in the
-- range of their types.
pub commands-Carries :
    (k : KeyAction) (keycode meta bitrate max_fps max_size : ℕ) (on : Bool)
    → keycode < 2 ^ 32
    → meta < 2 ^ 32
    → bitrate < 2 ^ 32
    → max_fps < 2 ^ 32
    → max_size < 2 ^ 16
    → Carries (Message.key (key_byte k) keycode meta) (key k keycode meta)
      × Carries (Message.key_syn keycode (key_byte k)) (nav keycode k)
      × Carries
          (Message.set_encoding bitrate max_fps max_size)
          (set_encoding bitrate max_fps max_size)
      × Carries (Message.pause_resume on) (pause on)
unfolding key nav set_encoding pause
commands-Carries k code meta b f m on hk hm hb hf hs = (
  encode-Carries (Message.key (key_byte k) code meta) (key_byte-lt k, hk, hm) tt tt,
  encode-Carries (Message.key_syn code (key_byte k)) (hk, key_byte-lt k) tt tt,
  encode-Carries (Message.set_encoding b f m) (hb, hf, hs) tt tt,
  encode-Carries (Message.pause_resume on) tt tt tt,
)

-- A text of at most 65535 bytes is sent whole.
pub text-Carries : (s : List ℕ) → IsText s → length s ≤ u16_max → Carries (Message.text s) (text s)
unfolding text encode
text-Carries s t h = encode-Carries (Message.text s) t tt h

-- A text of more than 65535 bytes gives no bytes at all.
pub text_too_long : (s : List ℕ) → u16_max < length s → text s ≡ []
unfolding text encode
text_too_long s h =
    refused (encode_message (Message.text s))
      (encode-not_Fits (Message.text s) tt (λ f. omega arith))

-- A point of the frame, or none.
abbrev pub InFrame : (w h : ℕ) → Option (ℤ × ℤ) → Type 0
InFrame w h none = Unit
InFrame w h (some (x, y)) =
    (pos 0 ≤ℤ x) × (x ≤ℤ pos (w - 1)) × (pos 0 ≤ℤ y) × (y ≤ℤ pos (h - 1)) × (0 < w) × (0 < h)

-- What is sent for a point: one frame with the message, or nothing.
abbrev pub SentAt : (ℤ → ℤ → Message) → Option (ℤ × ℤ) → List ℕ → Type 0
SentAt msg none bytes = bytes ≡ []
SentAt msg (some (x, y)) bytes = Carries (msg x y) bytes

in_frame_IsI32 : (x : ℤ) (w : ℕ) → w < 2 ^ 16 → pos 0 ≤ℤ x → x ≤ℤ pos (w - 1) → IsI32 x
in_frame_IsI32 (pos n) w h lo hi = omega arith
in_frame_IsI32 (negsuc n) w h lo hi = omega arith

send_at-SentAt :
    (msg : ℤ → ℤ → Message) (p : Option (ℤ × ℤ)) (w h : ℕ)
    → w < 2 ^ 16
    → h < 2 ^ 16
    → InFrame w h p
    → ((x y : ℤ) → IsI32 x → IsI32 y → IsTyped (msg x y) × IsCanonical (msg x y) × Fits (msg x y))
    → SentAt msg p (send_at msg p)
send_at-SentAt msg none w h hw hh b good = refl
send_at-SentAt msg (some (x, y)) w h hw hh (x0, x1, y0, y1, _, _) good =
    let (t, c, fits) = good x y (in_frame_IsI32 x w hw x0 x1) (in_frame_IsI32 y h hh y0 y1) in
    encode-Carries (msg x y) t c fits

module _ (f : Float) where
  open f use {F32}

  pixel_bounds :
      (n : F32) (size : ℕ) → (pos 0 ≤ℤ pixel f n size) × (pixel f n size ≤ℤ pos (size - 1))
  unfolding pixel
  pixel_bounds n size = ground arith

  -- Whatever the float operations give: a mapped point lies in the frame, and an empty frame has none.
  pub map_to_device-InFrame :
      (css_x css_y view_w view_h : F32) (w h rotation : ℕ)
      → InFrame w h (map_to_device f css_x css_y view_w view_h w h rotation)
  unfolding map_to_device
  map_to_device-InFrame css_x css_y view_w view_h w h rotation =
      let (rx, ry) =
        frame_point f css_x css_y view_w view_h (frame_aspect f w h rotation) rotation in
      ground (arith, pixel_bounds rx w, pixel_bounds ry h)

  -- `touch` and `scroll` send one frame with the pixel that `map_to_device` gives for the point, or
  -- nothing where it gives none.
  pub pointer-SentAt :
      CastLaws f
      → (c : Client) (a : TouchAction) (id : ℕ)
        (css_x css_y view_w view_h pressure hscroll vscroll : F32)
      → id < 256
      → c.width < 2 ^ 16
      → c.height < 2 ^ 16
      → let at = map_to_device f css_x css_y view_w view_h c.width c.height c.rotation in
        SentAt
          (λ x y. Message.touch (touch_byte a) id x y (encode_pressure f pressure))
          at
          (touch f c a id css_x css_y view_w view_h pressure)
        × SentAt
            (λ x y. Message.scroll x y (encode_scroll f hscroll) (encode_scroll f vscroll))
            at
            (scroll f c css_x css_y view_w view_h hscroll vscroll)
  unfolding touch scroll encode_pressure encode_scroll
  pointer-SentAt laws c a id css_x css_y view_w view_h pressure hscroll vscroll hi hw hh =
      let in_frame = map_to_device-InFrame css_x css_y view_w view_h c.width c.height c.rotation in
      (
        send_at-SentAt _ _ c.width c.height hw hh in_frame
            (λ x y hx hy. ((touch_byte-lt a, hi, hx, hy, laws.to_u16_range _), tt, tt)),
        send_at-SentAt _ _ c.width c.height hw hh in_frame
            (λ x y hx hy. ((hx, hy, laws.to_i32_range _, laws.to_i32_range _), tt, tt)),
      )
