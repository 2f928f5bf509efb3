-- ===== src/Client/State.antt =====
-- crates/client/src/lib.rs: `TouchAction`, `KeyAction`, `Out`, `Client` and what reads or sets a field.
use Prim.Native.Nat.{bit_and}
use droidmirror.Base.{ℕ, Bool, true, false, not, List, [], ◌++◌, Option, none, ◌==◌}
use droidmirror.Proto.Types.{Codec, cap_uinput, cap_h265, cap_audio}

pub data TouchAction : Type 0 where
  down up move cancel : TouchAction

-- `action as u8`.
abbrev pub touch_byte : TouchAction → ℕ
touch_byte TouchAction.down = 0
touch_byte TouchAction.up = 1
touch_byte move = 2
touch_byte cancel = 3

pub data KeyAction : Type 0 where
  down up : KeyAction

abbrev pub key_byte : KeyAction → ℕ
key_byte KeyAction.down = 0
key_byte KeyAction.up = 1

pub data Out : Type 0 where
  configure : (codec : Codec) (csd : List ℕ) (width height : ℕ) → Out
  frame : (pts_us : ℕ) (keyframe : Bool) (nal : List ℕ) → Out
  device_name : List ℕ → Out
  error : List ℕ → Out

pub record Client : Type 0 where
  pub buf : List ℕ
  pub handshake : Bool
  pub fatal : Bool
  pub width : ℕ
  pub height : ℕ
  pub rotation : ℕ
  pub codec : Option Codec
  pub csd : List ℕ
  pub device_name : List ℕ
  pub caps : ℕ
  pub skip_until_key : Bool

-- `Client::new`.
abbrev pub new : Client
new = record {
  buf = [];
  handshake = false;
  fatal = false;
  width = 0;
  height = 0;
  rotation = 0;
  codec = none;
  csd = [];
  device_name = [];
  caps = 0;
  skip_until_key = false;
}

unfoldable pub set_rotation : Client → ℕ → Client
set_rotation c quarters_clockwise = record c { rotation = bit_and quarters_clockwise 3 }

unfoldable pub has_uinput : Client → Bool
has_uinput c = not (bit_and c.caps cap_uinput == 0)

unfoldable pub has_h265 : Client → Bool
has_h265 c = not (bit_and c.caps cap_h265 == 0)

unfoldable pub has_audio : Client → Bool
has_audio c = not (bit_and c.caps cap_audio == 0)

unfoldable pub request_keyframe_skip : Client → Client
request_keyframe_skip c = record c { skip_until_key = true }

-- A handler gives the client and the events that it pushed, in order.
abbrev pub Handled : Type 0
Handled = Client × List Out

infixl 5 ◌>>=◌
abbrev pub ◌>>=◌ : Handled → (Client → Handled) → Handled
(c, out) >>= f = let (c', out') = f c in (c', out ++ out')
