-- ===== src/Server/Touch.antt =====
-- crates/server/src/inject.rs: the Linux input events of touches, scrolls and keys.
use droidmirror.Base.{
  ℕ, zero, Bool, true, false, ◌||◌, not, List, [], ◌∷◌, ◌++◌, ◌==◌, min, get_or, set, replicate,
  if◌then◌else◌,
}
use droidmirror.Base.Int.{ℤ, pos, negsuc, clamp}

abbrev pub ev_syn : ℕ
ev_syn = 0x00

abbrev pub ev_key : ℕ
ev_key = 0x01

abbrev pub ev_rel : ℕ
ev_rel = 0x02

abbrev pub ev_abs : ℕ
ev_abs = 0x03

abbrev pub abs_mt_slot : ℕ
abs_mt_slot = 0x2f

abbrev pub abs_mt_touch_major : ℕ
abs_mt_touch_major = 0x30

abbrev pub abs_mt_position_x : ℕ
abs_mt_position_x = 0x35

abbrev pub abs_mt_position_y : ℕ
abs_mt_position_y = 0x36

abbrev pub abs_mt_tracking_id : ℕ
abs_mt_tracking_id = 0x39

abbrev pub abs_mt_pressure : ℕ
abs_mt_pressure = 0x3a

abbrev pub btn_touch : ℕ
btn_touch = 0x14a

abbrev pub rel_wheel : ℕ
rel_wheel = 0x08

abbrev pub rel_hwheel : ℕ
rel_hwheel = 0x06

abbrev pub action_down : ℕ
action_down = 0

abbrev pub action_up : ℕ
action_up = 1

abbrev pub action_move : ℕ
action_move = 2

abbrev pub action_cancel : ℕ
action_cancel = 3

-- A Linux `input_event` without its time.
pub data Ev : Type 0 where
  ev : (type_ code : ℕ) (value : ℤ) → Ev

abbrev pub syn_report : Ev
syn_report = ev ev_syn 0 (pos 0)

-- `i32::from(b)`.
abbrev pub bit : Bool → ℤ
bit b = if b then pos 1 else pos 0

-- `TouchSlots`: which of the ten slots are down.
abbrev pub TouchSlots : Type 0
TouchSlots = List Bool

abbrev pub no_slots : TouchSlots
no_slots = replicate 10 false

-- `down.iter().any(|d| *d)`.
abbrev pub any_down : TouchSlots → Bool
any_down [] = false
any_down (d ∷ ds) = d || any_down ds

abbrev pub slot_of : ℕ → ℕ
slot_of id = min id 9

-- The two events that end each report.
abbrev pub report : TouchSlots → List Ev
report down = ev ev_key btn_touch (bit (any_down down)) ∷ syn_report ∷ []

unfoldable pub apply_up : TouchSlots → ℕ → TouchSlots × List Ev
apply_up down slot =
    let down' = set down slot false in
    (
      down',
      ev ev_abs abs_mt_slot (pos slot) ∷ ev ev_abs abs_mt_tracking_id (negsuc 0) ∷ report down',
    )

-- A slot that was not down is given its tracking number again, also by a move.
unfoldable pub apply_contact :
    TouchSlots → (action slot : ℕ) (x y : ℤ) (pressure : ℕ) → TouchSlots × List Ev
apply_contact down action slot x y pressure =
    let down' = set down slot true in
    let tracking =
      if action == action_down || not (get_or down slot false)
      then ev ev_abs abs_mt_tracking_id (pos slot) ∷ []
      else [] in
    (
      down',
      ev ev_abs abs_mt_slot (pos slot) ∷ tracking
          ++ (ev ev_abs abs_mt_position_x x
              ∷ ev ev_abs abs_mt_position_y y
              ∷ ev ev_abs abs_mt_pressure (clamp (pos 0) (pos 255) (pos pressure))
              ∷ ev ev_abs abs_mt_touch_major (pos 6)
              ∷ report down'),
    )

-- `TouchSlots::apply`: the new slots and the events.
unfoldable pub apply : TouchSlots → (action id : ℕ) (x y : ℤ) (pressure : ℕ) → TouchSlots × List Ev
unfolding apply_up apply_contact
apply down action id x y pressure =
    if action == action_up || action == action_cancel
    then apply_up down (slot_of id)
    else if action == action_down || action == action_move
    then apply_contact down action (slot_of id) x y pressure
    else (down, [])

abbrev is_zero : ℤ → Bool
is_zero (pos zero) = true
is_zero z = false

abbrev wheel : ℕ → ℤ → List Ev
wheel code v = if is_zero v then [] else ev ev_rel code (clamp (negsuc 7) (pos 8) v) ∷ []

abbrev end_report : List Ev → List Ev
end_report [] = []
end_report (e ∷ es) = (e ∷ es) ++ (syn_report ∷ [])

unfoldable pub scroll_events : (h v : ℤ) → List Ev
scroll_events h v = end_report (wheel rel_wheel v ++ wheel rel_hwheel h)

unfoldable pub key_events : ℕ → Bool → List Ev
key_events code down = ev ev_key code (bit down) ∷ syn_report ∷ []
