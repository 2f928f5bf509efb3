-- ===== src/Native/Window/Passive.antt =====
-- A window without control of the phone.
use droidmirror.Base.{
  ℕ, zero, suc, ◌≡◌, refl, ◌∙◌, arith, Bool, true, false, ◌&&◌, ◌||◌, not, Option, none, some, List,
  [], ◌∷◌, ◌==◌, if◌then◌else◌, Bool-cases, inl, inr,
}
use droidmirror.Base.Bytes.{All, All-append}
use droidmirror.Base.Float.{Float}
use droidmirror.Client.State.{KeyAction}
use droidmirror.Native.Codes.{android_key}
use droidmirror.Native.Window.{
  HostCmd, touch_cmd, key_cmd, text_cmd, scroll_cmd, Button, left, right, other_button, KeyEvent,
  WindowEvent, close_requested, redraw_requested, resized, occluded, modifiers_changed,
  cursor_moved, mouse_input, mouse_wheel, keyboard_input, App, Desk, DecodedMsg, frame_msg,
  size_msg, status_msg, first_lower,
}
use droidmirror.Native.Window.Events.{
  Handled, in_toolbar, screenshot, stop_gif, toggle_gif, toggle_mp4, capture_slot, toolbar_in,
  toolbar_click, shortcut, capture_shortcut, key_for, plain_key, or_plain, keyboard, left_button,
  mouse, wheel, take_msg, take_msgs, window_event, window_events,
}

-- No touch, scroll or text, and no key that goes down.
abbrev pub IsPassive : {F : Type 0} → HostCmd F → Type 0
IsPassive (touch_cmd action x y view_w view_h) = ⊥
IsPassive (scroll_cmd x y view_w view_h h v) = ⊥
IsPassive (text_cmd s) = ⊥
IsPassive (key_cmd KeyAction.down keycode meta) = ⊥
IsPassive _ = Unit

module _ (f : Float) (desk : Desk) where
  -- A handler that leaves the pointer alone: the control, the button, and passive commands.
  abbrev pub IsAside : App f.F32 → Handled f desk → Type 0
  IsAside a (a', sent) =
      (a'.no_control ≡ a.no_control) × (a'.buttons ≡ a.buttons) × All IsPassive sent

  screenshot-IsAside : (a : App f.F32) → IsAside a (screenshot f desk a, [])
  unfolding screenshot
  screenshot-IsAside a = (ground arith, ground arith, tt)

  toggle_gif-IsAside : (a : App f.F32) → IsAside a (toggle_gif f desk a, [])
  unfolding toggle_gif stop_gif
  toggle_gif-IsAside a = (ground arith, ground arith, tt)

  toggle_mp4-IsAside : (a : App f.F32) → IsAside a (toggle_mp4 f desk a)
  unfolding toggle_mp4
  toggle_mp4-IsAside a = (refl, refl, (tt, tt))

  capture_slot-IsAside : (slot : ℕ) (a : App f.F32) → IsAside a (capture_slot f desk slot a)
  capture_slot-IsAside zero a = screenshot-IsAside a
  capture_slot-IsAside (suc zero) a = toggle_gif-IsAside a
  capture_slot-IsAside (suc (suc n)) a = toggle_mp4-IsAside a

  toolbar_in-IsAside :
      (size : Option (ℕ × ℕ)) (a : App f.F32) → IsAside a (toolbar_in f desk size a)
  toolbar_in-IsAside none a = (refl, refl, tt)
  toolbar_in-IsAside (some (w, h)) a =
      elim (Bool-cases (
        f.lt a.cursor.1
          (f.add (f.sub (f.of_nat h) a.toolbar_px) (f.div a.toolbar_px (f.of_nat 2))))) [
            | inl top ↦ simp top (capture_slot-IsAside _ a)
            | inr low ↦ simp low (refl, refl, (tt, (tt, tt)))
          ]

  pub toolbar_click-IsAside : (a : App f.F32) → IsAside a (toolbar_click f desk a)
  unfolding toolbar_click
  toolbar_click-IsAside a = toolbar_in-IsAside a.window a

  -- A shortcut, where it is one.
  abbrev pub AsideIf : App f.F32 → Option (Handled f desk) → Type 0
  AsideIf a none = Unit
  AsideIf a (some r) = IsAside a r

  shortcut-AsideIf : (o : Option ℕ) (a : App f.F32) → AsideIf a (shortcut f desk o a)
  shortcut-AsideIf none a = tt
  shortcut-AsideIf (some c) a = elim (Bool-cases (c == b's')) [
    | inl s ↦ rw s (screenshot-IsAside a)
    | inr s ↦ elim (Bool-cases (c == b'g')) [
      | inl g ↦ rw (s, g) (toggle_gif-IsAside a)
      | inr g ↦ elim (Bool-cases (c == b'm')) [
        | inl m ↦ rw (s, g, m) (toggle_mp4-IsAside a)
        | inr m ↦ rw (s, g, m) tt
      ]
    ]
  ]

  pub shortcut_of-AsideIf :
      (e : KeyEvent) (a : App f.F32)
      → AsideIf a (if e.pressed && not e.repeat then capture_shortcut f desk e a else none)
  unfolding capture_shortcut
  shortcut_of-AsideIf e a = elim (Bool-cases (e.pressed && not e.repeat)) [
    | inr n ↦ rw n tt
    | inl y ↦
        rw y (elim (Bool-cases (not (a.mods.super_key || a.mods.control) || not a.mods.shift)) [
          | inl n ↦ simp n tt
          | inr k ↦ simp k (shortcut-AsideIf (first_lower e.logical_key) a)
        ])
  ]

  pub key_up-IsPassive :
      (o : Option ℕ) (a : App f.F32) → All IsPassive (key_for f desk KeyAction.up o a)
  key_up-IsPassive none a = tt
  key_up-IsPassive (some code) a = (tt, tt)

  -- What a handler leaves of a window without control.
  abbrev pub StaysPassive : Handled f desk → Type 0
  StaysPassive (a, sent) = (a.no_control ≡ true) × All IsPassive sent

  aside-StaysPassive :
      (a : App f.F32) (r : Handled f desk) → a.no_control ≡ true → IsAside a r → StaysPassive r
  aside-StaysPassive a r h (c, b, sent) = (c ∙ h, sent)

  plain_key-IsPassive :
      (e : KeyEvent) (a : App f.F32) → a.no_control ≡ true → All IsPassive (plain_key f desk e a)
  plain_key-IsPassive e a h = elim (Bool-cases e.pressed) [
    | inl p ↦ simp (p, h) tt
    | inr p ↦ simp p (key_up-IsPassive (android_key e.physical_key) a)
  ]

  or_plain-IsPassive :
      (e : KeyEvent) (a : App f.F32) (o : Option (Handled f desk))
      → a.no_control ≡ true
      → AsideIf a o
      → StaysPassive (or_plain f desk e a o)
  or_plain-IsPassive e a none h k = (h, plain_key-IsPassive e a h)
  or_plain-IsPassive e a (some r) h k = aside-StaysPassive a r h k

  left_button-IsPassive :
      (down : Bool) (a : App f.F32) → a.no_control ≡ true → StaysPassive (left_button f desk down a)
  left_button-IsPassive down a h = elim (Bool-cases (down && in_toolbar f desk a)) [
    | inl t ↦ rw t (aside-StaysPassive a (toolbar_click f desk a) h (toolbar_click-IsAside a))
    | inr n ↦ simp (n, h) (refl, tt)
  ]

  mouse-IsPassive :
      (down : Bool) (b : Button) (a : App f.F32)
      → a.no_control ≡ true
      → StaysPassive (mouse f desk down b a)
  unfolding mouse
  mouse-IsPassive down left a h = left_button-IsPassive down a h
  mouse-IsPassive true right a h = simp h (refl, tt)
  mouse-IsPassive false right a h = (h, tt)
  mouse-IsPassive down other_button a h = (h, tt)

  pub take_msgs-no_control :
      (ms : List DecodedMsg) (a : App f.F32)
      → ((take_msgs f desk ms a).no_control ≡ a.no_control)
        × ((take_msgs f desk ms a).buttons ≡ a.buttons)
  unfolding take_msgs take_msg
  take_msgs-no_control [] a = (refl, refl)
  take_msgs-no_control (size_msg w h ∷ ms) a = take_msgs-no_control ms _
  take_msgs-no_control (frame_msg w h rgba ∷ ms) a = take_msgs-no_control ms _
  take_msgs-no_control (status_msg text ∷ ms) a = take_msgs-no_control ms _

  window_event-IsPassive :
      (e : WindowEvent f.F32) (a : App f.F32)
      → a.no_control ≡ true
      → StaysPassive (window_event f desk e a)
  unfolding window_event stop_gif wheel keyboard
  window_event-IsPassive close_requested a h = (h, (tt, (tt, tt)))
  window_event-IsPassive (resized width height) a h = (h, tt)
  window_event-IsPassive (redraw_requested ms) a h = ((take_msgs-no_control ms a).0 ∙ h, tt)
  window_event-IsPassive (occluded hidden) a h = (h, (tt, tt))
  window_event-IsPassive (modifiers_changed m) a h = (h, tt)
  window_event-IsPassive (cursor_moved x y) a h = (
    h,
    elim (Bool-cases (not (a.buttons == 0))) [ inl p ↦ simp (p, h) tt | inr p ↦ simp (p, h) tt ],
  )
  window_event-IsPassive (mouse_input down button) a h = mouse-IsPassive down button a h
  window_event-IsPassive (mouse_wheel d) a h = (h, simp h tt)
  window_event-IsPassive (keyboard_input e) a h =
      or_plain-IsPassive e a _ h (shortcut_of-AsideIf e a)

-- With `--no-control` no sequence of events in the window sends the phone a touch, a scroll, a text
-- or a `Key` that goes down, only navigation keys, keys that come up and pauses; and the window stays
-- so.
pub window_events-IsPassive :
    (f : Float) (desk : Desk) (es : List (WindowEvent f.F32)) (a : App f.F32)
    → a.no_control ≡ true
    → ((window_events f desk es a).0.no_control ≡ true)
      × All IsPassive (window_events f desk es a).1
unfolding window_events
window_events-IsPassive f desk [] a h = (h, tt)
window_events-IsPassive f desk (e ∷ es) a h =
    let (h1, sent) = window_event-IsPassive f desk e a h in
    let (h2, later) = window_events-IsPassive f desk es (window_event f desk e a).0 h1 in
    (h2, All-append IsPassive _ _ sent later)
