-- ===== src/Base/Utf8.antt =====
-- `str::from_utf8`: the well-formed byte sequences of the Unicode standard, as the automaton over
-- one byte at a time. A Rust string is kept as its UTF-8 bytes.
use Prim.Native.Nat.{ℕ, zero, suc, ◌+◌, ◌-◌, ◌*◌, ◌%◌, ◌<◌}
use mathlib.Core.Path.{◌≡◌, refl}
use mathlib.Core.List.{List, [], ◌∷◌, ◌++◌}
use mathlib.Core.Bool.{Bool, true, false, ◌&&◌}
use native.Mathlib.Omega.{arith}
use droidmirror.Base.Tests.{leb, ltb, ◌==◌, if◌then◌else◌}
use droidmirror.Base.Bytes.{All}

-- What may follow: a new character, one to three continuation bytes, or a first continuation byte
-- from the narrower range after E0, ED, F0 and F4.
pub data Utf8State : Type 0 where
  start one_more two_more three_more after_e0 after_ed after_f0 after_f4 malformed : Utf8State

abbrev in_range : ℕ → ℕ → ℕ → Bool
in_range lo hi b = leb lo b && leb b hi

first_byte : ℕ → Utf8State
first_byte b =
    if ltb b 0x80
    then start
    else if in_range 0xc2 0xdf b
    then one_more
    else if b == 0xe0
    then after_e0
    else if b == 0xed
    then after_ed
    else if in_range 0xe1 0xef b
    then two_more
    else if b == 0xf0
    then after_f0
    else if in_range 0xf1 0xf3 b
    then three_more
    else if b == 0xf4
    then after_f4
    else malformed

abbrev tail_byte : ℕ → ℕ → Utf8State → ℕ → Utf8State
tail_byte lo hi next b = if in_range lo hi b then next else malformed

utf8_step : Utf8State → ℕ → Utf8State
unfolding first_byte
utf8_step start b = first_byte b
utf8_step one_more b = tail_byte 0x80 0xbf start b
utf8_step two_more b = tail_byte 0x80 0xbf one_more b
utf8_step three_more b = tail_byte 0x80 0xbf two_more b
utf8_step after_e0 b = tail_byte 0xa0 0xbf one_more b
utf8_step after_ed b = tail_byte 0x80 0x9f one_more b
utf8_step after_f0 b = tail_byte 0x90 0xbf two_more b
utf8_step after_f4 b = tail_byte 0x80 0x8f two_more b
utf8_step malformed b = malformed

utf8_run : Utf8State → List ℕ → Utf8State
unfolding utf8_step
utf8_run s [] = s
utf8_run s (b ∷ bs) = utf8_run (utf8_step s b) bs

-- Whether `String::from_utf8` and `str::from_utf8` take the bytes.
unfoldable pub is_utf8 : List ℕ → Bool
unfolding utf8_run
is_utf8 bs = elim (utf8_run start bs) [ start ↦ true | _ ↦ false ]

-- ASCII text is well formed.
pub is_utf8_ascii : (bs : List ℕ) → All (λ b. b < 0x80) bs → is_utf8 bs ≡ true
unfolding is_utf8
is_utf8_ascii [] h = refl
is_utf8_ascii (b ∷ bs) h = ground (arith, is_utf8_ascii bs h.1)

-- `str::chars`: the code points. The state is how many continuation bytes are missing, and the bits
-- of the character so far; the text is well formed.
char_step : ℕ × ℕ → ℕ → List ℕ × (ℕ × ℕ)
char_step (zero, acc) b =
    if ltb b 0x80
    then (b ∷ [], (0, 0))
    else if ltb b 0xe0
    then ([], (1, b - 0xc0))
    else if ltb b 0xf0
    then ([], (2, b - 0xe0))
    else ([], (3, b - 0xf0))
char_step (suc zero, acc) b = ((acc * 64 + b % 64) ∷ [], (0, 0))
char_step (suc (suc n), acc) b = ([], (suc n, acc * 64 + b % 64))

chars_from : ℕ × ℕ → List ℕ → List ℕ
unfolding char_step
chars_from s [] = []
chars_from s (b ∷ bs) = let (out, s') = char_step s b in out ++ chars_from s' bs

unfoldable pub chars : List ℕ → List ℕ
unfolding chars_from
chars bs = chars_from (0, 0) bs

-- The characters of an ASCII text are its bytes.
pub chars_ascii : (bs : List ℕ) → All (λ b. b < 0x80) bs → chars bs ≡ bs
unfolding chars
chars_ascii [] h = refl
chars_ascii (b ∷ bs) h = ground (arith, chars_ascii bs h.1)
