-- ===== src/Server/Control.antt =====
-- crates/server/src/control.rs: the traits `Inject` and `EncoderCtrl`, `ControlDemux`,
-- `apply_message`, `notches`; crates/server/src/android/capture.rs: the encoder's settings.
use droidmirror.Base.{
  ℕ, zero, suc, Bool, true, false, not, List, [], ◌++◌, none, some, length, drop, max,
  if◌then◌else◌,
}
use droidmirror.Base.Result.{Result, ok, err}
use droidmirror.Base.Int.{ℤ, pos, negsuc}
use droidmirror.Base.Float.{Float}
use droidmirror.Proto.Types.{Message, reserved, error_text}
use droidmirror.Proto.Decode.{try_decode_frame}
use droidmirror.Proto.Scale.{decode_scroll}

-- An injector with the state `I`: each method maps the state, its arguments first.
pub record Inject (I : Type 0) : Type 0 where
  pub touch : (action id : ℕ) (x y : ℤ) (pressure : ℕ) → I → I
  pub key : (action keycode meta : ℕ) → I → I
  pub text : List ℕ → I → I
  pub scroll : (x y h v : ℤ) → I → I

pub record EncoderCtrl (E : Type 0) : Type 0 where
  pub set_encoding : (bitrate max_fps max_size : ℕ) → E → E
  pub pause : Bool → E → E

abbrev is_zero : ℤ → Bool
is_zero (pos zero) = true
is_zero z = false

-- Whole notches of a fixed-point scroll, away from 0 where the scroll is not 0.
unfoldable pub notches : (f : Float) → ℤ → ℤ
notches f fixed =
    let v = decode_scroll f fixed in
    let n = f.to_i32 (f.round v) in
    if f.eq v (f.of_nat 0)
    then pos 0
    else if not (is_zero n)
    then n
    else if f.lt (f.of_nat 0) v
    then pos 1
    else negsuc 0

module _ {I E : Type 0} (f : Float) (inj : Inject I) (enc : EncoderCtrl E) where
  abbrev pub Device : Type 0
  Device = I × E

  unfoldable pub apply_message : Message → Device → Device
  apply_message (Message.touch action pointer_id x y pressure) (i, e) =
      (inj.touch action pointer_id x y pressure i, e)
  apply_message (Message.key action keycode meta) (i, e) = (inj.key action keycode meta i, e)
  apply_message (Message.key_syn keycode action) (i, e) = (inj.key action keycode 0 i, e)
  apply_message (Message.text s) (i, e) = (inj.text s i, e)
  apply_message (Message.scroll x y h v) (i, e) = (inj.scroll x y (notches f h) (notches f v) i, e)
  apply_message (Message.set_encoding bitrate max_fps max_size) (i, e) =
      (i, enc.set_encoding bitrate max_fps max_size e)
  apply_message (Message.pause_resume on) (i, e) = (i, enc.pause on e)
  apply_message (Message.video_frame pts_us keyframe nal) d = d
  apply_message (Message.configure codec width height csd) d = d
  apply_message (reserved tag payload) d = d

  -- What `push` leaves: the buffer, the device, and its result with the text of an error.
  abbrev pub Pushed : Type 0
  Pushed = List ℕ × Device × Result (List ℕ) (Unit {0})

  -- The `loop` of `push`: a frame takes 5 bytes at least.
  unfoldable pub push_loop : ℕ → List ℕ → Device → Pushed
  push_loop zero buf d = (buf, d, ok tt)
  push_loop (suc fuel) buf d = elim (try_decode_frame buf) [
    | ok none ↦ (buf, d, ok tt)
    | ok (some (msg, n)) ↦ push_loop fuel (drop n buf) (apply_message msg d)
    | err e ↦ ([], d, err (error_text e))
  ]

  -- `ControlDemux::push`; the demultiplexer's state is its buffer, empty at first.
  unfoldable pub push : List ℕ → List ℕ → Device → Pushed
  push input buf d = push_loop (length (buf ++ input)) (buf ++ input) d

-- The settings that `Capture` keeps for its encoder.
pub record Encoder : Type 0 where
  pub paused : Bool
  pub bitrate : ℕ
  pub max_fps : ℕ
  pub params_dirty : Bool

abbrev pub capture_ctrl : EncoderCtrl Encoder
capture_ctrl = record {
  set_encoding = λ bitrate max_fps max_size e. record e {
    bitrate = bitrate;
    max_fps = max max_fps 1;
    params_dirty = true;
  };
  pause = λ on e. record e { paused = on };
}

unfoldable pub take_params_dirty : Encoder → Encoder × Bool
take_params_dirty e = (record e { params_dirty = false }, e.params_dirty)
