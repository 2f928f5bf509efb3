-- ===== src/Base/Result.antt =====
-- Rust's `Result<A, E>`, with the `?` operator as the bind of a `do` block.
use mathlib.Core.Path.{◌≡◌, refl}
use mathlib.Core.Logic.{◌≢◌, ◌⊎◌, inl, inr}
use mathlib.Core.Option.{Option, none, some}
use mathlib.Core.Bool.{Bool, true, false}

pub data Result {ℓ κ} (E : Type κ) (A : Type ℓ) : Type (ℓ ⊔ κ) where
  err : E → Result E A
  ok : A → Result E A

-- `Option::ok_or`.
abbrev pub ok_or {ℓ κ} : {E : Type κ} {A : Type ℓ} → Option A → E → Result E A
ok_or none why = err why
ok_or (some a) why = ok a

-- `if failed { return Err(why) }`.
abbrev pub fail_if {κ} : {E : Type κ} → Bool → E → Result E (Unit {0})
fail_if true why = err why
fail_if false why = ok tt

-- `?`: the error ends the function.
infixl 5 ◌>>=◌
abbrev pub ◌>>=◌ {ℓ κ μ} :
    {E : Type κ} {A : Type ℓ} {B : Type μ} → Result E A → (A → Result E B) → Result E B
err why >>= next = err why
ok a >>= next = next a

-- `?` on a result with no value.
infixl 5 ◌>>◌
abbrev pub ◌>>◌ {κ μ} : {E : Type κ} {B : Type μ} → Result E (Unit {0}) → Result E B → Result E B
err why >> rest = err why
ok _ >> rest = rest

pub Result-cases {ℓ κ} :
    {E : Type κ} {A : Type ℓ} (r : Result E A) → ((a : A) × (r ≡ ok a)) ⊎ ((e : E) × (r ≡ err e))
Result-cases (ok a) = inl (a, refl)
Result-cases (err e) = inr (e, refl)

-- Inversion of a bind that gives a value.
pub >>=-eq-ok {ℓ κ μ} :
    {E : Type κ} {A : Type ℓ} {B : Type μ} (first : Result E A) (next : A → Result E B) {out : B}
    → (first >>= next) ≡ ok out
    → (mid : A) × (first ≡ ok mid) × (next mid ≡ ok out)
>>=-eq-ok (err why) next e = cc
>>=-eq-ok (ok mid) next e = (mid, refl, e)

-- What follows a test that let through.
pub >>-eq-ok {κ μ} :
    {E : Type κ} {B : Type μ} (test : Result E (Unit {0})) (rest : Result E B) {out : B}
    → (test >> rest) ≡ ok out
    → rest ≡ ok out
>>-eq-ok (err why) rest e = cc
>>-eq-ok (ok u) rest e = e

-- Whether a decoder asks for more bytes, by `Ok(None)`.
pub waits? {ℓ κ} :
    {E : Type κ} {A : Type ℓ} (r : Result E (Option A)) → (r ≡ ok none) ⊎ (r ≢ ok none)
waits? (ok none) = inl refl
waits? (ok (some p)) = inr (λ e. cc)
waits? (err x) = inr (λ e. cc)
