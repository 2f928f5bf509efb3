-- ===== src/Server/Keys.antt =====
-- crates/server/src/keys.rs: Android key codes and ASCII characters to Linux keys.
use droidmirror.Base.{
  ℕ, ◌+◌, ◌-◌, Bool, true, false, ◌&&◌, Option, none, some, List, [], ◌∷◌, leb, ◌==◌, if◌then◌else◌,
}

abbrev in_range : ℕ → ℕ → ℕ → Bool
in_range lo hi n = leb lo n && leb n hi

-- The `match` arms of one value each.
unfoldable pub find_arm : {A : Type 0} → ℕ → List (ℕ × A) → Option A
find_arm k [] = none
find_arm k ((j, a) ∷ arms) = let rest = find_arm k arms in if j == k then some a else rest

unfoldable pub android_arms : List (ℕ × ℕ)
android_arms =
    (3, 172)
    ∷ (4, 158)
    ∷ (19, 103)
    ∷ (20, 108)
    ∷ (21, 105)
    ∷ (22, 106)
    ∷ (24, 115)
    ∷ (25, 114)
    ∷ (26, 116)
    ∷ (7, 11)
    ∷ (61, 15)
    ∷ (62, 57)
    ∷ (66, 28)
    ∷ (67, 14)
    ∷ (111, 1)
    ∷ (187, 139)
    ∷ []

unfoldable pub android_to_linux : ℕ → Option ℕ
android_to_linux keycode =
    if in_range 29 54 keycode
    then some (keycode - 29 + 30)
    else if in_range 8 16 keycode
    then some (keycode - 8 + 2)
    else find_arm keycode android_arms

unfoldable pub ascii_arms : List (ℕ × (ℕ × Bool))
ascii_arms =
    (b'0', (11, false))
    ∷ (b' ', (57, false))
    ∷ (10, (28, false))
    ∷ (13, (28, false))
    ∷ (9, (15, false))
    ∷ (b'!', (2, true))
    ∷ (b'@', (3, true))
    ∷ (b'#', (4, true))
    ∷ (b'$', (5, true))
    ∷ (b'%', (6, true))
    ∷ (b'^', (7, true))
    ∷ (b'&', (8, true))
    ∷ (b'*', (9, true))
    ∷ (b'(', (10, true))
    ∷ (b')', (11, true))
    ∷ (b'-', (12, false))
    ∷ (b'_', (12, true))
    ∷ (b'=', (13, false))
    ∷ (b'+', (13, true))
    ∷ (b'[', (26, false))
    ∷ (b'{', (26, true))
    ∷ (b']', (27, false))
    ∷ (b'}', (27, true))
    ∷ (92, (43, false))
    ∷ (b'|', (43, true))
    ∷ (b';', (39, false))
    ∷ (b':', (39, true))
    ∷ (39, (40, false))
    ∷ (b'"', (40, true))
    ∷ (b',', (51, false))
    ∷ (b'<', (51, true))
    ∷ (b'.', (52, false))
    ∷ (b'>', (52, true))
    ∷ (b'/', (53, false))
    ∷ (b'?', (53, true))
    ∷ (b'`', (41, false))
    ∷ (b'~', (41, true))
    ∷ []

-- A Linux key, and whether Shift is held.
unfoldable pub ascii_to_linux : ℕ → Option (ℕ × Bool)
ascii_to_linux c =
    if in_range b'a' b'z' c
    then some (30 + (c - b'a'), false)
    else if in_range b'A' b'Z' c
    then some (30 + (c - b'A'), true)
    else if in_range b'1' b'9' c
    then some (2 + (c - b'1'), false)
    else find_arm c ascii_arms

abbrev pub key_leftshift : ℕ
key_leftshift = 42
