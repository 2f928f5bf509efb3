-- ===== src/Native/Window/Touches.antt =====
-- The touches of a window that controls the phone.
use droidmirror.Base.{
  ℕ, ◌≡◌, refl, sym, ap, ◌∙◌, arith, Bool, true, false, ◌&&◌, not, Option, none, some, List, [],
  ◌∷◌, ◌++◌, ◌==◌, if◌then◌else◌, Bool-cases, inl, inr,
}
use droidmirror.Base.Bytes.{All}
use droidmirror.Base.Float.{Float}
use droidmirror.Client.State.{TouchAction, move, cancel, KeyAction}
use droidmirror.Native.Codes.{android_key}
use droidmirror.Native.Window.{
  HostCmd, touch_cmd, key_cmd, Button, left, right, other_button, KeyEvent, WindowEvent,
  close_requested, redraw_requested, resized, occluded, modifiers_changed, cursor_moved,
  mouse_input, mouse_wheel, keyboard_input, App, Desk,
}
use droidmirror.Native.Window.Events.{
  Handled, in_toolbar, toolbar_click, send_touch, stop_gif, key_for, typed, keyed, pasted, on_key,
  plain_key, or_plain, keyboard, left_button, mouse, wheel, window_event, window_events,
}
use droidmirror.Native.Window.Passive.{
  IsPassive, IsAside, AsideIf, toolbar_click-IsAside, shortcut_of-AsideIf, take_msgs-no_control,
}

-- A pointer that is up or down: `none` for a move while it is up.
abbrev pub touch_step : TouchAction → Bool → Option Bool
touch_step TouchAction.down down = some true
touch_step TouchAction.up down = some false
touch_step move true = some true
touch_step move false = none
touch_step cancel down = some false

abbrev pub cmd_step : {F : Type 0} → HostCmd F → Bool → Option Bool
cmd_step (touch_cmd action x y view_w view_h) down = touch_step action down
cmd_step _ down = some down

abbrev pub and_then : (Bool → Option Bool) → Option Bool → Option Bool
and_then f none = none
and_then f (some down) = f down

-- The pointer after some commands.
abbrev pub tracks : {F : Type 0} → List (HostCmd F) → Bool → Option Bool
tracks [] down = some down
tracks (c ∷ sent) down = and_then (tracks sent) (cmd_step c down)

and_then_assoc :
    (f g h : Bool → Option Bool) (o : Option Bool)
    → ((d : Bool) → f d ≡ and_then g (h d))
    → and_then f o ≡ and_then g (and_then h o)
and_then_assoc f g h none e = refl
and_then_assoc f g h (some d) e = e d

tracks-append :
    {F : Type 0} (sent later : List (HostCmd F)) (down : Bool)
    → tracks (sent ++ later) down ≡ and_then (tracks later) (tracks sent down)
tracks-append [] later down = refl
tracks-append (c ∷ sent) later down =
    and_then_assoc (tracks (sent ++ later)) (tracks later) (tracks sent) (cmd_step c down)
      (tracks-append sent later)

abbrev IsUntouched : {F : Type 0} → HostCmd F → Type 0
IsUntouched (touch_cmd action x y view_w view_h) = ⊥
IsUntouched _ = Unit

untouched-tracks :
    {F : Type 0} (sent : List (HostCmd F)) (down : Bool)
    → All IsUntouched sent
    → tracks sent down ≡ some down
untouched-tracks [] down h = refl
untouched-tracks (touch_cmd action x y view_w view_h ∷ sent) down h = elim h.0 [ ]
untouched-tracks (c ∷ sent) down h = untouched-tracks sent down h.1

passive-IsUntouched :
    {F : Type 0} (sent : List (HostCmd F)) → All IsPassive sent → All IsUntouched sent
passive-IsUntouched [] h = tt
passive-IsUntouched (touch_cmd action x y view_w view_h ∷ sent) h = elim h.0 [ ]
passive-IsUntouched (key_cmd action k m ∷ sent) h = (tt, passive-IsUntouched sent h.1)
passive-IsUntouched (c ∷ sent) h = (tt, passive-IsUntouched sent h.1)

module _ (f : Float) (desk : Desk) where
  key_for-IsUntouched :
      (action : KeyAction) (o : Option ℕ) (a : App f.F32)
      → All IsUntouched (key_for f desk action o a)
  key_for-IsUntouched action none a = tt
  key_for-IsUntouched action (some code) a = (tt, tt)

  typed-IsUntouched :
      (o : Option (List ℕ)) (e : KeyEvent) (a : App f.F32) → All IsUntouched (typed f desk o e a)
  typed-IsUntouched none e a = key_for-IsUntouched KeyAction.down (android_key e.physical_key) a
  typed-IsUntouched (some text) e a = elim (Bool-cases (desk.is_printable text)) [
    | inl t ↦ rw t (tt, tt)
    | inr t ↦ rw t (key_for-IsUntouched KeyAction.down (android_key e.physical_key) a)
  ]

  keyed-IsUntouched : (e : KeyEvent) (a : App f.F32) → All IsUntouched (keyed f desk e a)
  keyed-IsUntouched e a = ground (
    arith,
    typed-IsUntouched e.text e a,
    key_for-IsUntouched KeyAction.down (android_key e.physical_key) a,
  )

  pasted-IsUntouched :
      (o : Option (List ℕ)) (e : KeyEvent) (a : App f.F32) → All IsUntouched (pasted f desk o e a)
  pasted-IsUntouched none e a = keyed-IsUntouched e a
  pasted-IsUntouched (some text) e a = (tt, tt)

  plain_key-IsUntouched : (e : KeyEvent) (a : App f.F32) → All IsUntouched (plain_key f desk e a)
  unfolding on_key
  plain_key-IsUntouched e a = ground (
    arith,
    key_for-IsUntouched KeyAction.up (android_key e.physical_key) a,
    pasted-IsUntouched desk.clipboard e a,
    keyed-IsUntouched e a,
  )

  abbrev pub is_down : App f.F32 → Bool
  is_down a = not (a.buttons == 0)

  -- The control stays, and the pointer follows the button.
  abbrev pub Follows : App f.F32 → Handled f desk → Type 0
  Follows a (a', sent) = (a'.no_control ≡ false) × (tracks sent (is_down a) ≡ some (is_down a'))

  aside-Follows :
      (a : App f.F32) (r : Handled f desk) → a.no_control ≡ false → IsAside f desk a r → Follows a r
  aside-Follows a r h (c, b, sent) = (
    c ∙ h,
    untouched-tracks r.1 (is_down a) (passive-IsUntouched r.1 sent)
        ∙ ap (λ n. some (not (n == 0))) (sym b),
  )

  or_plain-Follows :
      (e : KeyEvent) (a : App f.F32) (o : Option (Handled f desk))
      → a.no_control ≡ false
      → AsideIf f desk a o
      → Follows a (or_plain f desk e a o)
  or_plain-Follows e a none h k = (h, untouched-tracks _ (is_down a) (plain_key-IsUntouched e a))
  or_plain-Follows e a (some r) h k = aside-Follows a r h k

  left_button-Follows :
      (down : Bool) (a : App f.F32) → a.no_control ≡ false → Follows a (left_button f desk down a)
  unfolding send_touch
  left_button-Follows down a h = elim (Bool-cases (down && in_toolbar f desk a)) [
    | inl t ↦ rw t (aside-Follows a (toolbar_click f desk a) h (toolbar_click-IsAside f desk a))
    | inr n ↦ simp (n, h) (refl, moved down)
  ]
    where
      moved :
          (down : Bool)
          → and_then
              (λ d. some d)
              (touch_step (if down then TouchAction.down else TouchAction.up) (is_down a))
            ≡ some (not ((if down then 1 else 0) == 0))
      moved true = refl
      moved false = refl

  mouse-Follows :
      (down : Bool) (b : Button) (a : App f.F32)
      → a.no_control ≡ false
      → Follows a (mouse f desk down b a)
  unfolding mouse
  mouse-Follows down left a h = left_button-Follows down a h
  mouse-Follows true right a h = simp h (refl, refl)
  mouse-Follows false right a h = (h, refl)
  mouse-Follows down other_button a h = (h, refl)

  window_event-Follows :
      (e : WindowEvent f.F32) (a : App f.F32)
      → a.no_control ≡ false
      → Follows a (window_event f desk e a)
  unfolding window_event stop_gif wheel keyboard send_touch
  window_event-Follows close_requested a h = (h, refl)
  window_event-Follows (resized width height) a h = (h, refl)
  window_event-Follows (redraw_requested ms) a h =
      let (c, b) = take_msgs-no_control f desk ms a in
      (c ∙ h, ap (λ n. some (not (n == 0))) (sym b))
  window_event-Follows (occluded hidden) a h = (h, refl)
  window_event-Follows (modifiers_changed m) a h = (h, refl)
  window_event-Follows (cursor_moved x y) a h = (
    h,
    elim (Bool-cases (not (a.buttons == 0))) [
      | inl p ↦ simp (p, h) refl
      | inr p ↦ simp (p, h) refl
    ],
  )
  window_event-Follows (mouse_input down button) a h = mouse-Follows down button a h
  window_event-Follows (mouse_wheel d) a h = (h, simp h refl)
  window_event-Follows (keyboard_input e) a h =
      or_plain-Follows e a _ h (shortcut_of-AsideIf f desk e a)

-- A window with control: in the commands that it queues for its session over any sequence of events,
-- a touch moves only between one that goes down and the next one that comes up, and the state that
-- they leave is that of the button, from the button's state at the start on.
pub window_events-tracks :
    (f : Float) (desk : Desk) (es : List (WindowEvent f.F32)) (a : App f.F32)
    → a.no_control ≡ false
    → ((window_events f desk es a).0.no_control ≡ false)
      × (tracks (window_events f desk es a).1 (is_down f desk a)
          ≡ some (is_down f desk (window_events f desk es a).0))
unfolding window_events
window_events-tracks f desk [] a h = (h, refl)
window_events-tracks f desk (e ∷ es) a h =
    let (a1, sent) = window_event f desk e a in
    let (h1, first) = window_event-Follows f desk e a h in
    let (h2, later) = window_events-tracks f desk es a1 h1 in
    (
      h2,
      tracks-append sent _ (is_down f desk a)
          ∙ ap (and_then (tracks (window_events f desk es a1).1)) first
          ∙ later,
    )
