-- ===== src/Base/Bytes/Endian.antt =====
-- `to_le_bytes`, `from_le_bytes` and `from_be_bytes` of the unsigned integers.
use Prim.Native.Nat.{ℕ, zero, suc, ◌+◌, ◌*◌, ◌/◌, ◌%◌, ◌^◌, ◌<◌}
use mathlib.Core.Path.{◌≡◌, refl, ap}
use mathlib.Core.List.{List, [], ◌∷◌}
use native.Mathlib.Omega.{arith}
use native.Mathlib.Nat.{pow-suc}
use droidmirror.Base.Lists.{length}
use droidmirror.Base.Bytes.Slices.{All, IsByte}

-- The `k` bytes of `n`, lowest first: `u16`, `u32`, `u64` at 2, 4 and 8.
unfoldable pub le_bytes : ℕ → ℕ → List ℕ
le_bytes zero n = []
le_bytes (suc k) n = n % 256 ∷ le_bytes k (n / 256)

unfoldable pub read_le : List ℕ → ℕ
read_le [] = 0
read_le (b ∷ bs) = b + 256 * read_le bs

-- The first byte is the highest.
read_be_from : ℕ → List ℕ → ℕ
read_be_from acc [] = acc
read_be_from acc (b ∷ bs) = read_be_from (acc * 256 + b) bs

unfoldable pub read_be : List ℕ → ℕ
unfolding read_be_from
read_be bs = read_be_from 0 bs

pub length-le_bytes : (k n : ℕ) → length (le_bytes k n) ≡ k
unfolding le_bytes
length-le_bytes zero n = refl
length-le_bytes (suc k) n = ap suc (length-le_bytes k (n / 256))

pub read_le-le_bytes : (k n : ℕ) → n < 256 ^ k → read_le (le_bytes k n) ≡ n
unfolding le_bytes read_le
read_le-le_bytes zero n h = omega arith
read_le-le_bytes (suc k) n h =
    omega (arith, read_le-le_bytes k (n / 256) (omega (arith, pow-suc 256 k)))

pub read_le-lt : (bs : List ℕ) → All IsByte bs → read_le bs < 256 ^ length bs
unfolding read_le
read_le-lt [] h = omega arith
read_le-lt (b ∷ bs) h = omega (arith, read_le-lt bs h.1, pow-suc 256 (length bs))

pub le_bytes-All : (k n : ℕ) → All IsByte (le_bytes k n)
unfolding le_bytes
le_bytes-All zero n = tt
le_bytes-All (suc k) n = (omega arith, le_bytes-All k (n / 256))

-- `u32::to_be_bytes`.
abbrev pub be_bytes : ℕ → List ℕ
be_bytes n = n / 2 ^ 24 % 256 ∷ n / 2 ^ 16 % 256 ∷ n / 256 % 256 ∷ n % 256 ∷ []

pub read_be-be_bytes : (n : ℕ) → n < 2 ^ 32 → read_be (be_bytes n) ≡ n
unfolding read_be
read_be-be_bytes n h = omega arith
