-- ===== src/Base/Text.antt =====
-- The pieces of `format!`: literal text, decimal and hexadecimal numbers, as UTF-8 bytes.
use Prim.Native.Nat.{ℕ, zero, suc, ◌+◌, ◌/◌, ◌%◌}
use Prim.Native.Char.{code}
use Prim.Native.String.{String}
use mathlib.Core.Path.{◌≡◌, refl}
use mathlib.Core.List.{List, [], ◌∷◌, ◌++◌}
use droidmirror.Base.Tests.{ltb, ◌==◌, if◌then◌else◌}

-- The bytes of an ASCII literal.
abbrev pub ascii : String → List ℕ
ascii String.[] = []
ascii (String.◌∷◌ c s) = code c ∷ ascii s

unfoldable pub digit : ℕ → ℕ
digit d = if ltb d 10 then b'0' + d else 87 + d

-- The digits of `n` in base `b`, put in front of `acc`; `n` rounds are enough.
unfoldable pub digits_onto : ℕ → ℕ → ℕ → List ℕ → List ℕ
unfolding digit
digits_onto b zero n acc = digit (n % b) ∷ acc
digits_onto b (suc f) n acc =
    let rest = digits_onto b f (n / b) (digit (n % b) ∷ acc) in
    if n / b == 0 then digit (n % b) ∷ acc else rest

-- `{}` of an unsigned integer.
unfoldable pub decimal : ℕ → List ℕ
unfolding digits_onto
decimal n = digits_onto 10 n n []

-- `{:02x}` of a byte, and `{:08x}` of a `u32`: the low hexadecimal digits.
unfoldable pub hex : ℕ → ℕ → List ℕ
hex zero n = []
hex (suc k) n = hex k (n / 16) ++ (digit (n % 16) ∷ [])

-- `{:x}` of an unsigned integer.
unfoldable pub hex_digits : ℕ → List ℕ
unfolding digits_onto
hex_digits n = digits_onto 16 n n []

decimal_test : decimal 65536 ≡ ascii "65536"
unfolding decimal
decimal_test = refl

hex_test : hex 2 0x7f ≡ ascii "7f"
unfolding hex digit
hex_test = refl
