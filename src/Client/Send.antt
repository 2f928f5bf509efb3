-- ===== src/Client/Send.antt =====
-- crates/client/src/lib.rs: the commands, and the map from a point of the view to a device pixel.
use Prim.Native.Nat.{bit_and}
use droidmirror.Base.{ℕ, ◌-◌, Bool, ◌||◌, List, [], Option, none, some, ◌==◌, if◌then◌else◌}
use droidmirror.Base.Result.{Result, ok, err}
use droidmirror.Base.Int.{ℤ, pos, clamp as clamp_int}
use droidmirror.Base.Float.{Float}
use droidmirror.Proto.Types.{Message, ProtoError}
use droidmirror.Proto.Encode.{encode as encode_message}
use droidmirror.Proto.Scale.{encode_pressure, encode_scroll}
use droidmirror.Client.State.{TouchAction, touch_byte, KeyAction, key_byte, Client}

-- `msg.encode().unwrap_or_default()`.
abbrev pub or_empty : Result ProtoError (List ℕ) → List ℕ
or_empty (ok bytes) = bytes
or_empty (err e) = []

unfoldable pub encode : Message → List ℕ
encode msg = or_empty (encode_message msg)

unfoldable pub key : KeyAction → ℕ → ℕ → List ℕ
key action keycode meta = encode (Message.key (key_byte action) keycode meta)

unfoldable pub nav : ℕ → KeyAction → List ℕ
nav keycode action = encode (Message.key_syn keycode (key_byte action))

unfoldable pub text : List ℕ → List ℕ
text s = encode (Message.text s)

unfoldable pub set_encoding : ℕ → ℕ → ℕ → List ℕ
set_encoding bitrate max_fps max_size = encode (Message.set_encoding bitrate max_fps max_size)

unfoldable pub pause : Bool → List ℕ
pause on = encode (Message.pause_resume on)

-- `let Some((x, y)) = .. else { return Vec::new() }`: no bytes for a point without a pixel.
abbrev pub send_at : (ℤ → ℤ → Message) → Option (ℤ × ℤ) → List ℕ
send_at msg none = []
send_at msg (some (x, y)) = encode (msg x y)

module _ (f : Float) where
  open f use {F32, of_nat, half, sub, mul, div, le, lt, clamp, round, to_i32}

  unfoldable pub apply_rotation : F32 → F32 → ℕ → F32 × F32
  apply_rotation nx ny quarters =
      let q = bit_and quarters 3 in
      if q == 0
      then (nx, ny)
      else if q == 1
      then (ny, sub (of_nat 1) nx)
      else if q == 2
      then (sub (of_nat 1) nx, sub (of_nat 1) ny)
      else (sub (of_nat 1) ny, nx)

  -- The letterboxed picture in the view: its size, and its offset.
  unfoldable pub picture_box : (view_w view_h frame_aspect : F32) → F32 × F32 × F32 × F32
  picture_box view_w view_h frame_aspect =
      if lt frame_aspect (div view_w view_h)
      then (let box_w = mul view_h frame_aspect in
          (box_w, view_h, mul (sub view_w box_w) half, of_nat 0))
      else (let box_h = div view_w frame_aspect in
          (view_w, box_h, of_nat 0, mul (sub view_h box_h) half))

  -- `x.clamp(0, frame_w as i32 - 1)` of the scaled and rounded coordinate.
  unfoldable pub pixel : F32 → ℕ → ℤ
  pixel n size = clamp_int (pos 0) (pos (size - 1)) (to_i32 (round (mul n (of_nat size))))

  -- The aspect of the frame as it is displayed.
  unfoldable pub frame_aspect : (frame_w frame_h rotation : ℕ) → F32
  frame_aspect frame_w frame_h rotation =
      let turned = bit_and rotation 1 == 1 in
      div (of_nat (if turned then frame_h else frame_w))
        (of_nat (if turned then frame_w else frame_h))

  -- The point in the frame, each coordinate from 0 to 1.
  unfoldable pub frame_point : (css_x css_y view_w view_h aspect : F32) (rotation : ℕ) → F32 × F32
  unfolding apply_rotation picture_box
  frame_point css_x css_y view_w view_h aspect rotation =
      let (box_w, box_h, off_x, off_y) = picture_box view_w view_h aspect in
      let nx = clamp (div (sub css_x off_x) box_w) (of_nat 0) (of_nat 1) in
      let ny = clamp (div (sub css_y off_y) box_h) (of_nat 0) (of_nat 1) in
      apply_rotation nx ny rotation

  unfoldable pub map_to_device :
      (css_x css_y view_w view_h : F32) (frame_w frame_h rotation : ℕ) → Option (ℤ × ℤ)
  map_to_device css_x css_y view_w view_h frame_w frame_h rotation =
      let aspect = frame_aspect frame_w frame_h rotation in
      let (box_w, box_h, off_x, off_y) = picture_box view_w view_h aspect in
      let (rx, ry) = frame_point css_x css_y view_w view_h aspect rotation in
      if le view_w (of_nat 0) || (le view_h (of_nat 0) || (frame_w == 0 || frame_h == 0))
      then none
      else if le box_w (of_nat 0) || le box_h (of_nat 0)
      then none
      else some (pixel rx frame_w, pixel ry frame_h)

  unfoldable pub touch :
      Client → TouchAction → ℕ → (css_x css_y view_w view_h pressure : F32) → List ℕ
  touch c action id css_x css_y view_w view_h pressure =
      send_at (λ x y. Message.touch (touch_byte action) id x y (encode_pressure f pressure))
        (map_to_device css_x css_y view_w view_h c.width c.height c.rotation)

  unfoldable pub scroll : Client → (css_x css_y view_w view_h hscroll vscroll : F32) → List ℕ
  scroll c css_x css_y view_w view_h hscroll vscroll =
      send_at (λ x y. Message.scroll x y (encode_scroll f hscroll) (encode_scroll f vscroll))
        (map_to_device css_x css_y view_w view_h c.width c.height c.rotation)
