-- ===== src/Server/Args/Printed.antt =====
-- A number printed in decimal is parsed as the same number.
use droidmirror.Base.{
  ℕ, zero, suc, ◌+◌, ◌*◌, ◌/◌, ◌%◌, ◌<◌, ◌≤◌, ◌≡◌, ◌≢◌, refl, ◌∙◌, arith, false, some, List, [],
  ◌∷◌, ◌==◌, Bool-cases, inl, inr,
}
use droidmirror.Base.Bytes.{All}
use droidmirror.Base.Text.{digit, digits_onto, decimal}
use droidmirror.Server.Args.{push_digit, digits_from, parse_uint}

abbrev pub IsDigit : ℕ → Type 0
IsDigit c = (b'0' ≤ c) × (c ≤ b'9')

digit-IsDigit : (d : ℕ) → d < 10 → IsDigit (digit d)
unfolding digit
digit-IsDigit d h = (ground arith, ground arith)

push_digit-digit :
    (top q d n : ℕ) → d < 10 → q * 10 + d ≡ n → n ≤ top → push_digit top q (digit d) ≡ some n
unfolding push_digit digit
push_digit-digit top q d n hd e h = ground (arith, e, h)

digits_from-digit :
    (top q d n : ℕ) (acc : List ℕ)
    → d < 10
    → q * 10 + d ≡ n
    → n ≤ top
    → digits_from top q (digit d ∷ acc) ≡ digits_from top n acc
unfolding digits_from
digits_from-digit top q d n acc hd e h = rw (push_digit-digit top q d n hd e h, digits_from) refl

digits_from-digits_onto :
    (top f n : ℕ) (acc : List ℕ)
    → n ≤ f
    → n ≤ top
    → digits_from top 0 (digits_onto 10 f n acc) ≡ digits_from top n acc
unfolding digits_onto
digits_from-digits_onto top zero n acc h k =
    digits_from-digit top 0 (n % 10) n acc (omega arith) (omega arith) k
digits_from-digits_onto top (suc f) n acc h k = elim (Bool-cases (n / 10 == 0)) [
  | inl small ↦
      let last : n < 10 = ground (arith, small) in
      rw small (digits_from-digit top 0 (n % 10) n acc (omega arith) (omega (arith, last)) k)
  | inr large ↦ rw large (
      digits_from-digits_onto top f (n / 10) (digit (n % 10) ∷ acc) (omega (arith, h))
        (omega (arith, k))
      ∙ digits_from-digit top (n / 10) (n % 10) n acc (omega arith) (omega arith) k)
]

digits_onto-All : (f n : ℕ) (acc : List ℕ) → All IsDigit acc → All IsDigit (digits_onto 10 f n acc)
unfolding digits_onto
digits_onto-All zero n acc h = (digit-IsDigit (n % 10) (omega arith), h)
digits_onto-All (suc f) n acc h =
    let first = digit-IsDigit (n % 10) (omega arith) in
    elim (Bool-cases (n / 10 == 0)) [
      | inl small ↦ rw small (first, h)
      | inr large ↦ rw large (digits_onto-All f (n / 10) (digit (n % 10) ∷ acc) (first, h))
    ]

pub decimal-All : (n : ℕ) → All IsDigit (decimal n)
unfolding decimal
decimal-All n = digits_onto-All n n [] tt

digits_onto-not_empty : (f n : ℕ) (acc : List ℕ) → digits_onto 10 f n acc ≢ []
unfolding digits_onto
digits_onto-not_empty zero n acc = λ e. cc
digits_onto-not_empty (suc f) n acc = elim (Bool-cases (n / 10 == 0)) [
  | inl small ↦ rw small (λ e. cc)
  | inr large ↦ rw large (digits_onto-not_empty f (n / 10) (digit (n % 10) ∷ acc))
]

parse_uint-digits :
    (top : ℕ) (l : List ℕ) → All IsDigit l → l ≢ [] → parse_uint top l ≡ digits_from top 0 l
unfolding parse_uint
parse_uint-digits top [] h e = absurd (e refl)
parse_uint-digits top (c ∷ []) h e = refl
parse_uint-digits top (c ∷ d ∷ cs) h e =
    let plain : (c == b'+') ≡ false = ground (arith, h.0.0) in rw plain refl

-- `str::parse` of the `{}` of a number that its type can hold gives the number.
pub parse_uint-decimal : (top n : ℕ) → n ≤ top → parse_uint top (decimal n) ≡ some n
unfolding decimal digits_from
parse_uint-decimal top n h =
    parse_uint-digits top (decimal n) (decimal-All n) (digits_onto-not_empty n n [])
    ∙ digits_from-digits_onto top n n [] (omega arith) h
