-- ===== src/Base/Bytes/Slices.antt =====
-- Slices of byte strings: `xs[i..j]`, `starts_with`, `drain`.
use Prim.Native.Nat.{ℕ, zero, suc, ◌+◌, ◌-◌, ◌≤◌, ◌<◌}
use mathlib.Core.Path.{◌≡◌, refl, ap}
use mathlib.Core.List.{List, [], ◌∷◌, ◌++◌}
use mathlib.Core.Bool.{Bool, true, false, ◌&&◌}
use native.Mathlib.Omega.{arith}
use droidmirror.Base.Lists.{length, length-take, length-drop, take, drop, get_or}
use droidmirror.Base.Tests.{◌==◌}

-- `xs[i..j]`; the callers keep `i ≤ j ≤ length xs`, where the source would panic.
abbrev pub slice {ℓ} : {A : Type ℓ} → ℕ → ℕ → List A → List A
slice i j xs = take (j - i) (drop i xs)

-- `xs.starts_with(prefix)`.
abbrev pub starts_with : List ℕ → List ℕ → Bool
starts_with xs [] = true
starts_with [] (p ∷ ps) = false
starts_with (x ∷ xs) (p ∷ ps) = x == p && starts_with xs ps

abbrev pub All {ℓ κ} : {A : Type ℓ} → (A → Type κ) → List A → Type κ
All P [] = Unit
All P (x ∷ xs) = P x × All P xs

abbrev pub IsByte : ℕ → Type 0
IsByte b = b < 256

add_sub : (a b : ℕ) → a + b - a ≡ b
add_sub a b = omega arith

module _ {ℓ} {A : Type ℓ} where
  pub take-append_le : (n : ℕ) (xs ys : List A) → n ≤ length xs → take n (xs ++ ys) ≡ take n xs
  take-append_le zero xs ys h = refl
  take-append_le (suc n) [] ys h = elim h [ ]
  take-append_le (suc n) (x ∷ xs) ys h = ap (λ l. x ∷ l) (take-append_le n xs ys (omega arith))

  pub drop-append_le :
      (n : ℕ) (xs ys : List A) → n ≤ length xs → drop n (xs ++ ys) ≡ drop n xs ++ ys
  drop-append_le zero xs ys h = refl
  drop-append_le (suc n) [] ys h = elim h [ ]
  drop-append_le (suc n) (x ∷ xs) ys h = drop-append_le n xs ys (omega arith)

  pub take-length : (xs : List A) → take (length xs) xs ≡ xs
  take-length [] = refl
  take-length (x ∷ xs) = ap (λ l. x ∷ l) (take-length xs)

  pub drop-length : (xs : List A) → drop (length xs) xs ≡ []
  drop-length [] = refl
  drop-length (x ∷ xs) = drop-length xs

  pub drop-append_length : (xs ys : List A) → drop (length xs) (xs ++ ys) ≡ ys
  drop-append_length [] ys = refl
  drop-append_length (x ∷ xs) ys = drop-append_length xs ys

  pub take-append_length : (xs ys : List A) → take (length xs) (xs ++ ys) ≡ xs
  take-append_length [] ys = refl
  take-append_length (x ∷ xs) ys = ap (λ l. x ∷ l) (take-append_length xs ys)

  -- Bytes added behind the buffer do not change a slice inside it.
  pub slice-append :
      (i j : ℕ) (xs ys : List A) → i ≤ j → j ≤ length xs → slice i j (xs ++ ys) ≡ slice i j xs
  slice-append i j xs ys h k =
      rw (drop-append_le i xs ys (omega arith))
        (take-append_le (j - i) (drop i xs) ys (omega (arith, length-drop i xs)))

  -- The slice in the middle of three parts.
  pub slice_middle :
      (i j : ℕ) (front mid back : List A)
      → i ≡ length front
      → j ≡ length front + length mid
      → slice i j (front ++ (mid ++ back)) ≡ mid
  slice_middle i j front mid back hi hj =
      rw (hi, hj, drop-append_length front (mid ++ back), add_sub (length front) (length mid))
        (take-append_length mid back)

  pub length-slice : (i j : ℕ) (xs : List A) → i ≤ j → j ≤ length xs → length (slice i j xs) ≡ j - i
  length-slice i j xs h k = omega (arith, length-take (j - i) (drop i xs), length-drop i xs)

  pub get_or-append :
      (xs ys : List A) (i : ℕ) (d : A) → i < length xs → get_or (xs ++ ys) i d ≡ get_or xs i d
  get_or-append [] ys i d h = elim h [ ]
  get_or-append (x ∷ xs) ys zero d h = refl
  get_or-append (x ∷ xs) ys (suc i) d h = get_or-append xs ys i d (omega arith)

  pub get_or_middle :
      (i : ℕ) (front : List A) (x : A) (back : List A) (d : A)
      → i ≡ length front
      → get_or (front ++ (x ∷ back)) i d ≡ x
  get_or_middle i [] x back d h = rw h
  get_or_middle i (y ∷ front) x back d h = rw h (get_or_middle (length front) front x back d refl)

module _ {ℓ κ} {A : Type ℓ} (P : A → Type κ) where
  pub All-append : (xs ys : List A) → All P xs → All P ys → All P (xs ++ ys)
  All-append [] ys hx hy = hy
  All-append (x ∷ xs) ys hx hy = (hx.0, All-append xs ys hx.1 hy)

  pub All-take : (n : ℕ) (xs : List A) → All P xs → All P (take n xs)
  All-take zero xs h = tt
  All-take (suc n) [] h = tt
  All-take (suc n) (x ∷ xs) h = (h.0, All-take n xs h.1)

  pub All-drop : (n : ℕ) (xs : List A) → All P xs → All P (drop n xs)
  All-drop zero xs h = h
  All-drop (suc n) [] h = tt
  All-drop (suc n) (x ∷ xs) h = All-drop n xs h.1

  pub All-get_or : (xs : List A) (i : ℕ) (d : A) → All P xs → P d → P (get_or xs i d)
  All-get_or [] i d h hd = hd
  All-get_or (x ∷ xs) zero d h hd = h.0
  All-get_or (x ∷ xs) (suc i) d h hd = All-get_or xs i d h.1 hd

pub starts_with-append :
    (xs ys p : List ℕ) → length p ≤ length xs → starts_with (xs ++ ys) p ≡ starts_with xs p
starts_with-append [] ys [] h = elim ys [ [] ↦ refl | y ∷ l ↦ refl ]
starts_with-append (x ∷ xs) ys [] h = refl
starts_with-append [] ys (q ∷ p) h = elim h [ ]
starts_with-append (x ∷ xs) ys (q ∷ p) h = rw (starts_with-append xs ys p (omega arith))
