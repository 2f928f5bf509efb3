-- ===== src/Native/Codes.antt =====
-- crates/native/src/main.rs: `meta_bits` and `android_key`; crates/client/src/lib.rs: the key codes.
-- `KeyCode` has the keys of the window library that the table names.
use Prim.Native.Nat.{bit_or}
use droidmirror.Base.{ℕ, Bool, Option, none, some, if◌then◌else◌}

abbrev pub meta_shift : ℕ
meta_shift = 0x1

abbrev pub meta_alt : ℕ
meta_alt = 0x2

abbrev pub meta_ctrl : ℕ
meta_ctrl = 0x1000

abbrev pub key_home : ℕ
key_home = 3

abbrev pub key_back : ℕ
key_back = 4

abbrev pub key_volume_up : ℕ
key_volume_up = 24

abbrev pub key_volume_down : ℕ
key_volume_down = 25

abbrev pub key_power : ℕ
key_power = 26

abbrev pub key_app_switch : ℕ
key_app_switch = 187

pub record Mods : Type 0 where
  pub shift : Bool
  pub alt : Bool
  pub control : Bool
  pub super_key : Bool

unfoldable pub meta_bits : Mods → ℕ
meta_bits m =
    bit_or (bit_or (if m.shift then meta_shift else 0) (if m.alt then meta_alt else 0))
      (if m.control then meta_ctrl else 0)

pub data KeyCode : Type 0 where
  key_a key_b key_c key_d key_e key_f key_g key_h key_i key_j key_k key_l key_m : KeyCode
  key_n key_o key_p key_q key_r key_s key_t key_u key_v key_w key_x key_y key_z : KeyCode
  digit_0 digit_1 digit_2 digit_3 digit_4 digit_5 digit_6 digit_7 digit_8 digit_9 : KeyCode
  enter backspace tab space arrow_up arrow_down arrow_left arrow_right escape : KeyCode
  other_code : ℕ → KeyCode

-- The arms of `android_key`.
unfoldable pub code_of : KeyCode → Option ℕ
code_of key_a = some 29
code_of key_b = some 30
code_of key_c = some 31
code_of key_d = some 32
code_of key_e = some 33
code_of key_f = some 34
code_of key_g = some 35
code_of key_h = some 36
code_of key_i = some 37
code_of key_j = some 38
code_of key_k = some 39
code_of key_l = some 40
code_of key_m = some 41
code_of key_n = some 42
code_of key_o = some 43
code_of key_p = some 44
code_of key_q = some 45
code_of key_r = some 46
code_of key_s = some 47
code_of key_t = some 48
code_of key_u = some 49
code_of key_v = some 50
code_of key_w = some 51
code_of key_x = some 52
code_of key_y = some 53
code_of key_z = some 54
code_of digit_0 = some 7
code_of digit_1 = some 8
code_of digit_2 = some 9
code_of digit_3 = some 10
code_of digit_4 = some 11
code_of digit_5 = some 12
code_of digit_6 = some 13
code_of digit_7 = some 14
code_of digit_8 = some 15
code_of digit_9 = some 16
code_of enter = some 66
code_of backspace = some 67
code_of tab = some 61
code_of space = some 62
code_of arrow_up = some 19
code_of arrow_down = some 20
code_of arrow_left = some 21
code_of arrow_right = some 22
code_of escape = some 111
code_of (other_code n) = none

-- A key that the platform does not name is `none`.
abbrev pub android_key : Option KeyCode → Option ℕ
android_key none = none
android_key (some code) = code_of code
