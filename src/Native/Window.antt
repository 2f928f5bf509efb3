-- ===== src/Native/Window.antt =====
-- crates/native/src/main.rs: `HostCmd`, `encode_cmd`, and `App` with the handlers of the window's
-- events. Coordinates are `f32`s of the interface `Float`. What the handlers do to the GPU and the
-- title is not in the model; a handler gives the state and the commands that it sends, in order.
pub mod Events
pub mod Touches
pub mod Passive
use droidmirror.Base.{
  ℕ, zero, suc, Bool, true, false, ◌&&◌, ◌||◌, not, Option, none, some, List, [], ◌∷◌, ◌++◌, leb,
  ◌==◌, ◌+◌, if◌then◌else◌,
}
use droidmirror.Base.Bytes.{starts_with}
use droidmirror.Base.Text.{ascii}
use droidmirror.Base.Float.{Float}
use droidmirror.Client.State.{TouchAction, KeyAction, Client}
use droidmirror.Client.Send.{touch, key, nav, text, scroll, pause}
use droidmirror.Native.Codes.{
  Mods, meta_bits, KeyCode, escape, android_key, key_home, key_back, key_volume_up, key_volume_down,
  key_power, key_app_switch,
}

pub data HostCmd (F : Type 0) : Type 0 where
  touch_cmd : (action : TouchAction) (x y view_w view_h : F) → HostCmd F
  key_cmd : (action : KeyAction) (keycode meta : ℕ) → HostCmd F
  nav_cmd : (keycode : ℕ) (action : KeyAction) → HostCmd F
  text_cmd : List ℕ → HostCmd F
  scroll_cmd : (x y view_w view_h h v : F) → HostCmd F
  pause_cmd : Bool → HostCmd F
  record_mp4 : Bool → HostCmd F
  quit : HostCmd F

unfoldable pub encode_cmd : (f : Float) → Client → HostCmd f.F32 → List ℕ
encode_cmd f c (touch_cmd action x y view_w view_h) =
    touch f c action 0 x y view_w view_h (f.of_nat 1)
encode_cmd f c (key_cmd action keycode meta) = key action keycode meta
encode_cmd f c (nav_cmd keycode action) = nav keycode action
encode_cmd f c (text_cmd s) = text s
encode_cmd f c (scroll_cmd x y view_w view_h h v) = scroll f c x y view_w view_h h v
encode_cmd f c (pause_cmd on) = pause on
encode_cmd f c (record_mp4 on) = []
encode_cmd f c quit = []

pub data Button : Type 0 where
  left right other_button : Button

pub data Key : Type 0 where
  character : List ℕ → Key
  audio_volume_up : Key
  other_key : Key

pub record KeyEvent : Type 0 where
  pub pressed : Bool
  pub repeat : Bool
  pub logical_key : Key
  pub physical_key : Option KeyCode
  pub text : Option (List ℕ)

pub data Delta (F : Type 0) : Type 0 where
  line_delta : (x y : F) → Delta F
  pixel_delta : (x y : F) → Delta F

pub data DecodedMsg : Type 0 where
  frame_msg : (width height : ℕ) (rgba : List ℕ) → DecodedMsg
  size_msg : (width height : ℕ) → DecodedMsg
  status_msg : List ℕ → DecodedMsg

pub data WindowEvent (F : Type 0) : Type 0 where
  close_requested : WindowEvent F
  -- The new inner size.
  resized : (width height : ℕ) → WindowEvent F
  redraw_requested : List DecodedMsg → WindowEvent F
  occluded : Bool → WindowEvent F
  modifiers_changed : Mods → WindowEvent F
  cursor_moved : (x y : F) → WindowEvent F
  mouse_input : (pressed : Bool) → Button → WindowEvent F
  mouse_wheel : Delta F → WindowEvent F
  keyboard_input : KeyEvent → WindowEvent F

-- `window` is the window's inner size, if there is a window; `latest` and `gif` whether there is a
-- frame and a GIF recorder.
pub record App (F : Type 0) : Type 0 where
  pub window : Option (ℕ × ℕ)
  pub cursor : F × F
  pub buttons : ℕ
  pub mods : Mods
  pub video : ℕ × ℕ
  pub no_control : Bool
  pub toolbar_px : F
  pub latest : Bool
  pub gif : Bool
  pub mp4_on : Bool
  pub status : List ℕ
  pub exited : Bool

-- The clipboard's text, `output_path`, and `chars().all(|c| !c.is_control())`.
pub record Desk : Type 0 where
  pub clipboard : Option (List ℕ)
  pub output_path : (ext : List ℕ) → List ℕ
  pub is_printable : List ℕ → Bool

unfoldable pub same_text : List ℕ → List ℕ → Bool
same_text [] [] = true
same_text (a ∷ as') (b ∷ bs) = a == b && same_text as' bs
same_text _ _ = false

abbrev pub is_character : Key → List ℕ → Bool
is_character (character s) t = same_text s t
is_character audio_volume_up t = false
is_character other_key t = false

abbrev pub is_escape : Option KeyCode → Bool
is_escape (some escape) = true
is_escape _ = false

abbrev pub is_volume_up : Key → Bool
is_volume_up audio_volume_up = true
is_volume_up _ = false

-- The first character of a text, in lower case; `none` where it is not ASCII or not there.
abbrev pub first_lower : Key → Option ℕ
first_lower (character []) = none
first_lower (character (c ∷ cs)) = some (if leb b'A' c && leb c b'Z' then c + 32 else c)
first_lower _ = none
