-- ===== src/Server/Codes.antt =====
-- Which Linux keys the tables give: each is registered by the device's setup, and which characters
-- share a key.
use droidmirror.Base.{
  ℕ, ◌+◌, ◌≤◌, ◌≡◌, ◌≢◌, Bool, false, List, [], ◌∷◌, Option, none, some, arith, ◌==◌, Bool-cases,
  inl, inr, sym, ap, ◌↔◌, if◌then◌else◌, ◌∙◌,
}
use droidmirror.Base.Bytes.{All}
use droidmirror.Server.Keys.{
  android_to_linux, ascii_to_linux, key_leftshift, find_arm, android_arms, ascii_arms,
}

-- The value, if there is one, satisfies `P`.
abbrev pub Given : {A : Type 0} → (A → Type 0) → Option A → Type 0
Given P none = Unit
Given P (some a) = P a

find_arm-Given :
    {A : Type 0} (P : A → Type 0) (k : ℕ) (arms : List (ℕ × A))
    → All (λ arm. P arm.1) arms
    → Given P (find_arm k arms)
unfolding find_arm
find_arm-Given P k [] h = tt
find_arm-Given P k ((j, a) ∷ arms) h = elim (Bool-cases (j == k)) [
  | inl hit ↦ rw hit h.0
  | inr miss ↦ rw miss (find_arm-Given P k arms h.1)
]

-- `setup` registers the keys from 1 to 255.
abbrev pub IsRegistered : ℕ → Type 0
IsRegistered code = (1 ≤ code) × (code ≤ 255)

-- Registered, and not the key of Shift.
abbrev IsPlain : ℕ × Bool → Type 0
IsPlain k = (1 ≤ k.0) × (k.0 ≤ 255) × (k.0 ≢ key_leftshift)

ascii_arms-IsPlain : (c : ℕ) → Given IsPlain (find_arm c ascii_arms)
unfolding ascii_arms
ascii_arms-IsPlain c = find_arm-Given IsPlain c ascii_arms (omega arith)

android_arms-IsRegistered : (c : ℕ) → Given IsRegistered (find_arm c android_arms)
unfolding android_arms
android_arms-IsRegistered c = find_arm-Given IsRegistered c android_arms (omega arith)

-- Every key that the two tables give is one that the device has registered.
pub codes-IsRegistered :
    (n : ℕ)
    → Given IsRegistered (android_to_linux n) × Given (λ k. IsRegistered k.0) (ascii_to_linux n)
unfolding android_to_linux ascii_to_linux
codes-IsRegistered n = ground (arith, ascii_arms-IsPlain n, android_arms-IsRegistered n)

-- The only characters on the key of Shift itself.
abbrev pub IsNotM : ℕ → Type 0
IsNotM c = (c ≢ b'm') × (c ≢ b'M')

pub not_on_shift : (c : ℕ) → IsNotM c → Given (λ k. k.0 ≢ key_leftshift) (ascii_to_linux c)
unfolding ascii_to_linux
not_on_shift c h = ground (arith, ascii_arms-IsPlain c)

lower_letter : (i : ℕ) → i ≤ 25 → ascii_to_linux (b'a' + i) ≡ some (30 + i, false)
unfolding ascii_to_linux
lower_letter i h = ground arith

-- `KEY_A` to `KEY_Z` of linux/input-event-codes.h, which follow the rows of the keyboard.
abbrev pub kernel_letter : ℕ → ℕ
kernel_letter i =
    if i == 0
    then 30
    else if i == 1
    then 48
    else if i == 2
    then 46
    else if i == 3
    then 32
    else if i == 4
    then 18
    else if i == 5
    then 33
    else if i == 6
    then 34
    else if i == 7
    then 35
    else if i == 8
    then 23
    else if i == 9
    then 36
    else if i == 10
    then 37
    else if i == 11
    then 38
    else if i == 12
    then 50
    else if i == 13
    then 49
    else if i == 14
    then 24
    else if i == 15
    then 25
    else if i == 16
    then 16
    else if i == 17
    then 19
    else if i == 18
    then 31
    else if i == 19
    then 20
    else if i == 20
    then 22
    else if i == 21
    then 47
    else if i == 22
    then 17
    else if i == 23
    then 45
    else if i == 24
    then 21
    else 44

some_key : (a b : ℕ) → ◌≡◌ {A = Option (ℕ × Bool)} (some (a, false)) (some (b, false)) → a ≡ b
some_key a b e = cc

first_or_not :
    (i code : ℕ)
    → i ≤ 25
    → ((30 + i ≡ code) ↔ (i ≡ 0))
    → (ascii_to_linux (b'a' + i) ≡ some (code, false)) ↔ (i ≡ 0)
first_or_not i code h k = (
  λ e. k.0 (some_key (30 + i) code (sym (lower_letter i h) ∙ e)),
  λ e. lower_letter i h ∙ ap (λ c. some (c, false)) (k.1 e),
)

-- Of the letters `a` to `z`, number 0 to 25, the table puts `a` on the key that the kernel has for it,
-- and no other; each has the key of code 30 and its number, without Shift.
pub ascii_to_linux-kernel_letter :
    (i : ℕ)
    → i ≤ 25
    → (ascii_to_linux (b'a' + i) ≡ some (30 + i, false))
      × ((ascii_to_linux (b'a' + i) ≡ some (kernel_letter i, false)) ↔ (i ≡ 0))
ascii_to_linux-kernel_letter i h =
    (lower_letter i h, first_or_not i (kernel_letter i) h (ground (arith, h), ground (arith, h)))
