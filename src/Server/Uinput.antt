-- ===== src/Server/Uinput.antt =====
-- crates/server/src/android/uinput.rs: the injector over `/dev/uinput`. The device's state is what
-- the file has been given; `write` to it is outside the model, and its result is not looked at.
use Prim.Native.Nat.{bit_and}
use droidmirror.Base.{
  ℕ, Bool, true, false, List, [], ◌∷◌, ◌++◌, none, some, ◌==◌, replicate, if◌then◌else◌,
}
use droidmirror.Base.Bytes.{le_bytes, i32_bits}
use droidmirror.Base.Utf8.{chars}
use droidmirror.Server.Control.{Inject}
use droidmirror.Server.Keys.{android_to_linux, ascii_to_linux, key_leftshift}
use droidmirror.Server.Touch.{Ev, ev, TouchSlots, apply, scroll_events, key_events, action_down}

abbrev pub key_leftctrl : ℕ
key_leftctrl = 29

abbrev pub key_leftalt : ℕ
key_leftalt = 56

abbrev pub meta_shift : ℕ
meta_shift = 0x1

abbrev pub meta_alt : ℕ
meta_alt = 0x2

abbrev pub meta_ctrl : ℕ
meta_ctrl = 0x1000

pub record UInput : Type 0 where
  pub slots : TouchSlots
  pub written : List Ev

-- The 24 bytes that are written for an event: the time is 0.
unfoldable pub event_bytes : Ev → List ℕ
event_bytes (ev type_ code value) =
    replicate 16 0 ++ (le_bytes 2 type_ ++ (le_bytes 2 code ++ le_bytes 4 (i32_bits value)))

abbrev pub write_events : List Ev → UInput → UInput
write_events es u = record u { written = u.written ++ es }

unfoldable pub tap_key : ℕ → Bool → List Ev
unfolding key_events
tap_key code down = key_events code down

-- The events of `modifiers`.
unfoldable pub modifiers : ℕ → Bool → List Ev
modifiers meta down =
    (if bit_and meta meta_shift == 0 then [] else tap_key key_leftshift down)
    ++ ((if bit_and meta meta_alt == 0 then [] else tap_key key_leftalt down)
        ++ (if bit_and meta meta_ctrl == 0 then [] else tap_key key_leftctrl down))

-- The events of `Inject::key`: modifiers go down before the key, and up after it.
unfoldable pub key_report : (action keycode meta : ℕ) → List Ev
key_report action keycode meta = elim (android_to_linux keycode) [
  | none ↦ []
  | some code ↦
      if action == action_down
      then modifiers meta true ++ tap_key code true
      else tap_key code false ++ modifiers meta false
]

-- The events of one character of `Inject::text`; one without a key is logged and skipped.
unfoldable pub type_char : ℕ → List Ev
type_char c = elim (ascii_to_linux c) [
  | none ↦ []
  | some (code, shift) ↦
      (if shift then tap_key key_leftshift true else [])
      ++ (tap_key code true
          ++ (tap_key code false ++ (if shift then tap_key key_leftshift false else [])))
]

unfoldable pub type_chars : List ℕ → List Ev
type_chars [] = []
type_chars (c ∷ cs) = type_char c ++ type_chars cs

abbrev pub uinput_inject : Inject UInput
uinput_inject = record {
  touch = λ action id x y pressure u.
      let (slots', es) = apply u.slots action id x y pressure in
      record u { slots = slots'; written = u.written ++ es };
  key = λ action keycode meta. write_events (key_report action keycode meta);
  text = λ s. write_events (type_chars (chars s));
  scroll = λ x y h v. write_events (scroll_events h v);
}
