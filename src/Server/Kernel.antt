-- ===== src/Server/Kernel.antt =====
-- What the kernel makes of the events of `TouchSlots::apply`: the multitouch protocol of slots,
-- read independently of the code, and the slots of the server against the contacts of the kernel.
use droidmirror.Base.{
  ℕ, zero, suc, ◌≡◌, ◌⊎◌, refl, ap, Bool, true, false, not, List, [], ◌∷◌, set, get_or, arith, ◌==◌,
  if◌then◌else◌, ◌&&◌,
}
use droidmirror.Base.Int.{ℤ, pos, negsuc}
use droidmirror.Server.Touch.{
  Ev, ev, TouchSlots, any_down, apply, abs_mt_slot, abs_mt_tracking_id, btn_touch, ev_abs, ev_key,
  slot_of, action_down, action_up, action_move, action_cancel,
}

-- The current slot, the slots with a contact, and the state of BTN_TOUCH.
pub record Kernel : Type 0 where
  pub slot : ℕ
  pub contacts : List Bool
  pub button : Bool

-- A tracking number of -1 ends the contact of the current slot; another begins or renews it.
abbrev is_contact : ℤ → Bool
is_contact (pos n) = true
is_contact (negsuc n) = false

abbrev magnitude : ℤ → ℕ
magnitude (pos n) = n
magnitude (negsuc n) = 0

abbrev pub sense : Ev → Kernel → Kernel
sense (ev type_ code value) k =
    if type_ == ev_abs && code == abs_mt_slot
    then record k { slot = magnitude value }
    else if type_ == ev_abs && code == abs_mt_tracking_id
    then record k { contacts = set k.contacts k.slot (is_contact value) }
    else if type_ == ev_key && code == btn_touch
    then record k { button = not (magnitude value == 0) }
    else k

abbrev pub sense_all : List Ev → Kernel → Kernel
sense_all [] k = k
sense_all (e ∷ es) k = sense_all es (sense e k)

-- Setting what is set already changes nothing.
set_same : (down : List Bool) (i : ℕ) → get_or down i false ≡ true → set down i true ≡ down
set_same [] i h = refl
set_same (d ∷ down) zero h = ap (λ b. b ∷ down) (cc)
set_same (d ∷ down) (suc i) h = ap (λ l. d ∷ l) (set_same down i h)

-- The action is one that `apply` knows.
abbrev pub IsAction : ℕ → Type 0
IsAction a = (a ≡ action_down) ⊎ (a ≡ action_up) ⊎ (a ≡ action_move) ⊎ (a ≡ action_cancel)

-- After the events of a touch the kernel has the contacts of the new slots, and the button is down
-- exactly while some slot is.
pub apply_refines :
    (down : TouchSlots) (k : Kernel) (action id : ℕ) (x y : ℤ) (pressure : ℕ)
    → k.contacts ≡ down
    → IsAction action
    → let (down', es) = apply down action id x y pressure in
      ((sense_all es k).contacts ≡ down') × ((sense_all es k).button ≡ any_down down')
unfolding apply
apply_refines down k action id x y pressure h ha = ground (arith, set_same down (slot_of id))
