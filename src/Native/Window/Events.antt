-- ===== src/Native/Window/Events.antt =====
-- crates/native/src/main.rs: `window_event` and what it calls.
use droidmirror.Base.{
  ℕ, zero, suc, Bool, true, false, ◌&&◌, ◌||◌, not, Option, none, some, List, [], ◌∷◌, ◌++◌, ◌%◌,
  ◌^◌, ◌==◌, if◌then◌else◌,
}
use droidmirror.Base.Bytes.{starts_with}
use droidmirror.Base.Text.{ascii}
use droidmirror.Base.Float.{Float}
use droidmirror.Client.State.{TouchAction, KeyAction}
use droidmirror.Native.Codes.{
  meta_bits, android_key, key_home, key_back, key_volume_up, key_volume_down, key_power,
  key_app_switch,
}
use droidmirror.Native.Window.{
  HostCmd, touch_cmd, key_cmd, nav_cmd, text_cmd, scroll_cmd, pause_cmd, record_mp4, quit, Button,
  left, right, other_button, KeyEvent, Delta, line_delta, pixel_delta, DecodedMsg, frame_msg,
  size_msg, status_msg, WindowEvent, close_requested, redraw_requested, resized, occluded,
  modifiers_changed, cursor_moved, mouse_input, mouse_wheel, keyboard_input, App, Desk,
  is_character, is_escape, is_volume_up, first_lower,
}

module _ (f : Float) (desk : Desk) where
  open f use {F32, of_nat, mul, div, add, sub, le, lt, clamp, to_u32}

  abbrev pub State : Type 0
  State = App F32

  -- The state and the commands sent.
  abbrev pub Handled : Type 0
  Handled = App F32 × List (HostCmd F32)

  -- `a.max(b)`.
  abbrev pub f32_max : F32 → F32 → F32
  f32_max a b = if le b a then a else b

  unfoldable pub view : State → F32 × F32
  view a = elim a.window [
    | none ↦ (of_nat 1, of_nat 1)
    | some (w, h) ↦ (of_nat w, f32_max (sub (of_nat h) a.toolbar_px) (of_nat 1))
  ]

  unfoldable pub in_toolbar : State → Bool
  in_toolbar a = elim a.window [
    | none ↦ false
    | some (w, h) ↦ le (sub (of_nat h) a.toolbar_px) a.cursor.1
  ]

  unfoldable pub send_touch : TouchAction → State → HostCmd F32
  send_touch action a = touch_cmd action a.cursor.0 a.cursor.1 (view a).0 (view a).1

  abbrev pub tap_nav : ℕ → List (HostCmd F32)
  tap_nav keycode = nav_cmd keycode KeyAction.down ∷ nav_cmd keycode KeyAction.up ∷ []

  unfoldable pub screenshot : State → State
  screenshot a = if a.latest then record a { status = desk.output_path (ascii "png") } else a

  unfoldable pub stop_gif : State → State
  stop_gif a = record a { gif = false }

  unfoldable pub toggle_gif : State → State
  toggle_gif a =
      if a.gif
      then stop_gif a
      else if a.latest
      then record a { gif = true; status = desk.output_path (ascii "gif") }
      else a

  unfoldable pub toggle_mp4 : State → Handled
  toggle_mp4 a = (
    record a { mp4_on = not a.mp4_on; status = if not a.mp4_on then [] else a.status },
    record_mp4 (not a.mp4_on) ∷ [],
  )

  abbrev pub capture_slot : ℕ → State → Handled
  capture_slot zero a = (screenshot a, [])
  capture_slot (suc zero) a = (toggle_gif a, [])
  capture_slot (suc (suc n)) a = toggle_mp4 a

  abbrev pub nav_slot : ℕ → ℕ
  nav_slot n =
      if n == 0
      then key_back
      else if n == 1
      then key_home
      else if n == 2
      then key_app_switch
      else if n == 3
      then key_power
      else if n == 4
      then key_volume_down
      else key_volume_up

  abbrev pub toolbar_in : Option (ℕ × ℕ) → State → Handled
  toolbar_in none a = (a, [])
  toolbar_in (some (w, h)) a =
      let top = sub (of_nat h) a.toolbar_px in
      let across = λ (n : ℕ). mul (div a.cursor.0 (of_nat w)) (of_nat n) in
      if lt a.cursor.1 (add top (div a.toolbar_px (of_nat 2)))
      then capture_slot (to_u32 (clamp (across 3) (of_nat 0) (div (of_nat 299) (of_nat 100)))) a
      else (a, tap_nav (nav_slot (to_u32 (clamp (across 6) (of_nat 0) (of_nat 5)))))

  unfoldable pub toolbar_click : State → Handled
  toolbar_click a = toolbar_in a.window a

  abbrev pub shortcut : Option ℕ → State → Option Handled
  shortcut none a = none
  shortcut (some c) a =
      if c == b's'
      then some (screenshot a, [])
      else if c == b'g'
      then some (toggle_gif a, [])
      else if c == b'm'
      then some (toggle_mp4 a)
      else none

  -- `none` where the event is no shortcut.
  unfoldable pub capture_shortcut : KeyEvent → State → Option Handled
  capture_shortcut e a =
      if not (a.mods.super_key || a.mods.control) || not a.mods.shift
      then none
      else shortcut (first_lower e.logical_key) a

  -- The command of a key that the phone knows.
  abbrev pub key_for : KeyAction → Option ℕ → State → List (HostCmd F32)
  key_for action none a = []
  key_for action (some code) a = key_cmd action code (meta_bits a.mods) ∷ []

  abbrev pub key_down : KeyEvent → State → List (HostCmd F32)
  key_down e a = key_for KeyAction.down (android_key e.physical_key) a

  -- The text of a key that is pressed with neither Ctrl nor Alt.
  abbrev pub typed : Option (List ℕ) → KeyEvent → State → List (HostCmd F32)
  typed none e a = key_down e a
  typed (some text) e a = if desk.is_printable text then text_cmd text ∷ [] else key_down e a

  abbrev pub keyed : KeyEvent → State → List (HostCmd F32)
  keyed e a =
      if is_escape e.physical_key
      then tap_nav key_back
      else if a.mods.control && is_character e.logical_key (ascii "h")
      then nav_cmd key_home KeyAction.down ∷ []
      else if a.mods.control && is_character e.logical_key (ascii "s")
      then nav_cmd key_app_switch KeyAction.down ∷ []
      else if is_volume_up e.logical_key
      then nav_cmd key_volume_up KeyAction.down ∷ []
      else if not a.mods.control && not a.mods.alt
      then typed e.text e a
      else key_down e a

  abbrev pub pasted : Option (List ℕ) → KeyEvent → State → List (HostCmd F32)
  pasted none e a = keyed e a
  pasted (some text) e a = text_cmd text ∷ []

  unfoldable pub on_key : KeyEvent → State → List (HostCmd F32)
  on_key e a =
      if a.mods.control && is_character e.logical_key (ascii "v")
      then pasted desk.clipboard e a
      else keyed e a

  abbrev pub key_up : KeyEvent → State → List (HostCmd F32)
  key_up e a = key_for KeyAction.up (android_key e.physical_key) a

  -- What is not a shortcut.
  abbrev pub plain_key : KeyEvent → State → List (HostCmd F32)
  plain_key e a = if not e.pressed then key_up e a else if a.no_control then [] else on_key e a

  abbrev pub or_plain : KeyEvent → State → Option Handled → Handled
  or_plain e a (some h) = h
  or_plain e a none = (a, plain_key e a)

  unfoldable pub keyboard : KeyEvent → State → Handled
  keyboard e a = or_plain e a (if e.pressed && not e.repeat then capture_shortcut e a else none)

  abbrev pub left_button : Bool → State → Handled
  left_button down a =
      let a1 : State = record a { buttons = if down then 1 else 0 } in
      if down && in_toolbar a then toolbar_click a else (
        a1,
        (if a.no_control
            then []
            else send_touch (if down then TouchAction.down else TouchAction.up) a1 ∷ []),
      )

  unfoldable pub mouse : Bool → Button → State → Handled
  mouse down left a = left_button down a
  mouse down right a = (a, (if down && not a.no_control then tap_nav key_back else []))
  mouse down other_button a = (a, [])

  abbrev pub delta_of : Delta F32 → F32 × F32
  delta_of (line_delta x y) = (x, y)
  delta_of (pixel_delta x y) = (div x (of_nat 40), div y (of_nat 40))

  unfoldable pub wheel : Delta F32 → State → List (HostCmd F32)
  wheel d a =
      if a.no_control
      then []
      else scroll_cmd a.cursor.0 a.cursor.1 (view a).0 (view a).1 (delta_of d).0 (delta_of d).1 ∷ []

  -- `push_gif` and the upload are not in the model.
  unfoldable pub take_msg : DecodedMsg → State → State
  take_msg (size_msg w h) a = record a { video = (w, h) }
  take_msg (frame_msg w h rgba) a = record a { video = (w % 2 ^ 16, h % 2 ^ 16); latest = true }
  take_msg (status_msg text) a = record a {
    mp4_on = if starts_with text (ascii "mp4:") then false else a.mp4_on;
    status = text;
  }

  unfoldable pub take_msgs : List DecodedMsg → State → State
  take_msgs [] a = a
  take_msgs (m ∷ ms) a = take_msgs ms (take_msg m a)

  abbrev pub resized_to : (width height : ℕ) → Option (ℕ × ℕ) → Option (ℕ × ℕ)
  resized_to width height none = none
  resized_to width height (some size) = some (width, height)

  unfoldable pub window_event : WindowEvent F32 → State → Handled
  window_event close_requested a =
      (record (stop_gif a) { exited = true }, record_mp4 false ∷ quit ∷ [])
  window_event (resized width height) a =
      (record a { window = resized_to width height a.window }, [])
  window_event (redraw_requested ms) a = (take_msgs ms a, [])
  window_event (occluded hidden) a = (a, pause_cmd hidden ∷ [])
  window_event (modifiers_changed m) a = (record a { mods = m }, [])
  window_event (cursor_moved x y) a =
      let a1 : State = record a { cursor = (x, y) } in
      (
        a1,
        (if not (a.buttons == 0) && not a.no_control
            then send_touch TouchAction.move a1 ∷ []
            else []),
      )
  window_event (mouse_input down button) a = mouse down button a
  window_event (mouse_wheel d) a = (a, wheel d a)
  window_event (keyboard_input e) a = keyboard e a

  -- Events one after the other.
  unfoldable pub window_events : List (WindowEvent F32) → State → Handled
  window_events [] a = (a, [])
  window_events (e ∷ es) a =
      let (a1, sent) = window_event e a in
      let (a2, later) = window_events es a1 in (a2, sent ++ later)
