-- ===== src/Adb/Daemon/Serials/Picked.antt =====
-- Which device `pick_serial` takes.
use droidmirror.Base.{
  ◌≡◌, refl, sym, ap, subst, ◌∙◌, arith, Bool, true, false, not, none, some, List, [], ◌∷◌, ◌==◌,
  Bool-cases, inl, inr, ◌⊎◌, ◌↔◌,
}
use droidmirror.Base.Bytes.{starts_with}
use droidmirror.Base.Result.{ok}
use droidmirror.Adb.Daemon.Serials.{
  Bytes, same_bytes, any, filter, Devices, devices, is_emulator, hardware, or_all, candidates,
  pick_one, pick_wanted, pick_serial,
}

abbrev pub IsIn : Bytes → List Bytes → Type 0
IsIn x [] = ⊥
IsIn x (y ∷ ys) = (x ≡ y) ⊎ IsIn x ys

same_bytes-eq : (a b : Bytes) → same_bytes a b ≡ true → a ≡ b
unfolding same_bytes
same_bytes-eq [] [] h = refl
same_bytes-eq [] (y ∷ b) h = cc
same_bytes-eq (x ∷ a) [] h = cc
same_bytes-eq (x ∷ a) (y ∷ b) h = elim (Bool-cases (x == y)) [
  | inl e ↦
      let first : x ≡ y = ground (arith, e) in
      let rest : a ≡ b = same_bytes-eq a b (rw (e) at h) in rw (first, rest) refl
  | inr e ↦ absurd (let bad = rw (e) at h in cc)
]

same_bytes_refl : (a : Bytes) → same_bytes a a ≡ true
unfolding same_bytes
same_bytes_refl [] = refl
same_bytes_refl (x ∷ a) =
    let first : (x == x) ≡ true = ground arith in rw (first) (same_bytes_refl a)

any-IsIn : (w : Bytes) (l : List Bytes) → any (λ s. same_bytes s w) l ≡ true → IsIn w l
unfolding any
any-IsIn w [] h = absurd (cc)
any-IsIn w (x ∷ l) h = elim (Bool-cases (same_bytes x w)) [
  | inl e ↦ inl (sym (same_bytes-eq x w e))
  | inr e ↦ inr (any-IsIn w l (rw (e) at h))
]

IsIn-any : (w : Bytes) (l : List Bytes) → IsIn w l → any (λ s. same_bytes s w) l ≡ true
unfolding any
IsIn-any w [] h = elim h [ ]
IsIn-any w (x ∷ l) (inl e) =
    let first : same_bytes x w ≡ true = rw (e) (same_bytes_refl x) in rw (first) refl
IsIn-any w (x ∷ l) (inr h) = elim (Bool-cases (same_bytes x w)) [
  | inl e ↦ rw (e) refl
  | inr e ↦ rw (e) (IsIn-any w l h)
]

filter-IsIn :
    (p : Bytes → Bool) (l : List Bytes) (t : Bytes) → IsIn t l → p t ≡ true → IsIn t (filter p l)
unfolding filter
filter-IsIn p [] t h e = h
filter-IsIn p (x ∷ l) t (inl same) e = let here : p x ≡ true = cc in rw (here) (inl same)
filter-IsIn p (x ∷ l) t (inr h) e = elim (Bool-cases (p x)) [
  | inl k ↦ rw (k) (inr (filter-IsIn p l t h e))
  | inr k ↦ rw (k) (filter-IsIn p l t h e)
]

IsIn-filter :
    (p : Bytes → Bool) (l : List Bytes) (t : Bytes) → IsIn t (filter p l) → IsIn t l × (p t ≡ true)
unfolding filter
IsIn-filter p [] t h = elim h [ ]
IsIn-filter p (x ∷ l) t h = elim (Bool-cases (p x)) [
  | inl k ↦ elim (rw (k) at h) [
    | inl same ↦ (inl same, ap p same ∙ k)
    | inr later ↦ let (i, e) = IsIn-filter p l t later in (inr i, e)
  ]
  | inr k ↦ let (i, e) = IsIn-filter p l t (rw (k) at h) in (inr i, e)
]

not-true : (b : Bool) → not b ≡ true → b ≡ false
not-true true e = cc
not-true false e = refl

-- The only one among the hardware, or, with no hardware, the only one.
abbrev IsOnly : Bytes → List Bytes → Type 0
IsOnly s online =
    IsIn s online
    × ((t : Bytes) → IsIn t online → is_emulator t ≡ false → t ≡ s)
    × (is_emulator s ≡ true → (t : Bytes) → IsIn t online → t ≡ s)

pick_one-eq : (other found : List Bytes) (s : Bytes) → pick_one other found ≡ ok s → found ≡ s ∷ []
pick_one-eq other [] s e = cc
pick_one-eq other (x ∷ []) s e = let same : x ≡ s = cc in ap (λ l. l ∷ []) same
pick_one-eq other (x ∷ y ∷ xs) s e = cc

only_in : (s t : Bytes) → IsIn t (s ∷ []) → t ≡ s
only_in s t (inl e) = e
only_in s t (inr h) = elim h [ ]

-- By the hardware among the devices.
candidates-IsOnly :
    (online found : List Bytes) (s : Bytes)
    → hardware online ≡ found
    → candidates online ≡ s ∷ []
    → IsOnly s online
unfolding candidates hardware
candidates-IsOnly online [] s h e =
    let all : online ≡ s ∷ [] = ap (or_all online) (sym h) ∙ e in
    (
      subst (IsIn s) (sym all) (inl refl),
      λ t i p. only_in s t (subst (IsIn t) all i),
      λ p t i. only_in s t (subst (IsIn t) all i),
    )
candidates-IsOnly online (x ∷ xs) s h e =
    let all : x ∷ xs ≡ s ∷ [] = ap (or_all online) (sym h) ∙ e in
    let at : hardware online ≡ s ∷ [] = h ∙ all in
    let (i, real) =
      IsIn-filter (λ s. not (is_emulator s)) online s (subst (IsIn s) (sym at) (inl refl)) in
    (
      i,
      λ t it p.
          only_in s t
            (subst (IsIn t) at (filter-IsIn (λ s. not (is_emulator s)) online t it (ap not p))),
      λ p. absurd (let no = not-true _ real in cc),
    )

-- With no serial asked for, the device that is taken is online; no other hardware is; and it is an
-- emulator only where it is the only device.
pub pick_serial-only :
    (trim : Bytes → Bytes) (text s : Bytes)
    → pick_serial trim text none ≡ ok s
    → IsIn s (devices trim text).online
      × ((t : Bytes) → IsIn t (devices trim text).online → is_emulator t ≡ false → t ≡ s)
      × (is_emulator s ≡ true → (t : Bytes) → IsIn t (devices trim text).online → t ≡ s)
unfolding pick_serial
pick_serial-only trim text s e =
    candidates-IsOnly (devices trim text).online _ s refl (pick_one-eq _ _ s e)

pick_wanted-ok : (w s : Bytes) (d : Devices) → pick_wanted w d ≡ ok s → (s ≡ w) × IsIn w d.online
unfolding pick_wanted
pick_wanted-ok w s d e = elim (Bool-cases (any (λ s. same_bytes s w) d.online)) [
  | inl here ↦ let e' = rw (here) at e in (cc, any-IsIn w d.online here)
  | inr away ↦ elim (Bool-cases (any (λ s. starts_with s w) d.other)) [
    | inl k ↦ let e' = rw (away, k) at e in cc
    | inr k ↦ let e' = rw (away, k) at e in cc
  ]
]

ok-pick_wanted : (w : Bytes) (d : Devices) → IsIn w d.online → pick_wanted w d ≡ ok w
unfolding pick_wanted
ok-pick_wanted w d i = rw (IsIn-any w d.online i) refl

-- A serial that is asked for is taken exactly where it is online, and no other is taken for it.
pub pick_serial-wanted :
    (trim : Bytes → Bytes) (text w s : Bytes)
    → (pick_serial trim text (some w) ≡ ok s) ↔ (s ≡ w) × IsIn w (devices trim text).online
unfolding pick_serial
pick_serial-wanted trim text w s = (
  pick_wanted-ok w s (devices trim text),
  λ (same, i). ok-pick_wanted w (devices trim text) i ∙ ap ok (sym same),
)
