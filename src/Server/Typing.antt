-- ===== src/Server/Typing.antt =====
-- What a keyboard reader makes of the events of `UInput`: which keys are typed with which Shift, and
-- that no key stays down.
use droidmirror.Base.{
  ℕ, zero, ◌≡◌, ◌≢◌, refl, subst, ap, ◌∙◌, Bool, true, false, ◌&&◌, List, [], ◌∷◌, ◌++◌, Option,
  none, some, arith, ◌==◌, if◌then◌else◌, append_assoc, append-nil, Option-cases, inl, inr,
}
use droidmirror.Base.Bytes.{All}
use droidmirror.Base.Int.{ℤ, pos}
use droidmirror.Server.Keys.{ascii_to_linux, key_leftshift}
use droidmirror.Server.Codes.{Given, IsNotM, not_on_shift}
use droidmirror.Server.Touch.{Ev, ev, ev_key, action_down}
use droidmirror.Server.Uinput.{tap_key, modifiers, key_report, type_char, type_chars}

abbrev is_press : ℤ → Bool
is_press (pos zero) = false
is_press z = true

-- The state of one key after some events.
abbrev pub key_after : ℕ → List Ev → Bool → Bool
key_after k [] b = b
key_after k (ev type_ code value ∷ es) b =
    key_after k es (if type_ == ev_key && code == k then is_press value else b)

key_after-append :
    (k : ℕ) (es es' : List Ev) (b : Bool)
    → key_after k (es ++ es') b ≡ key_after k es' (key_after k es b)
key_after-append k [] es' b = refl
key_after-append k (ev t c v ∷ es) es' b = key_after-append k es es' _

type_char-released : (k c : ℕ) → key_after k (type_char c) false ≡ false
unfolding type_char tap_key
type_char-released k c = ground arith

-- After a text is typed no key is down that was not down before.
pub type_chars-released : (k : ℕ) (cs : List ℕ) → key_after k (type_chars cs) false ≡ false
unfolding type_chars
type_chars-released k [] = refl
type_chars-released k (c ∷ cs) =
    key_after-append k (type_char c) (type_chars cs) false
    ∙ ap (key_after k (type_chars cs)) (type_char-released k c)
    ∙ type_chars-released k cs

-- A key that goes down and up again with the same modifiers leaves every key up.
pub key_report-released :
    (k up keycode meta : ℕ)
    → up ≢ action_down
    → key_after k (key_report action_down keycode meta ++ key_report up keycode meta) false ≡ false
unfolding key_report modifiers tap_key
key_report-released k up keycode meta h = ground arith

-- A reader with US-style Shift: what it takes as typed, in order.
pub record Reader : Type 0 where
  pub shift : Bool
  pub typed : List (ℕ × Bool)

abbrev pub read_event : Ev → Reader → Reader
read_event (ev type_ code value) r =
    if type_ == ev_key
    then (if code == key_leftshift
        then record r { shift = is_press value }
        else if is_press value
        then record r { typed = r.typed ++ ((code, r.shift) ∷ []) }
        else r)
    else r

abbrev pub read_events : List Ev → Reader → Reader
read_events [] r = r
read_events (e ∷ es) r = read_events es (read_event e r)

read_events-append :
    (es es' : List Ev) (r : Reader) → read_events (es ++ es') r ≡ read_events es' (read_events es r)
read_events-append [] es' r = refl
read_events-append (e ∷ es) es' r = read_events-append es es' (read_event e r)

-- The keys of the characters that have one.
abbrev keys_with : Option (ℕ × Bool) → List (ℕ × Bool) → List (ℕ × Bool)
keys_with none ks = ks
keys_with (some k) ks = k ∷ ks

abbrev pub keys_of : List ℕ → List (ℕ × Bool)
keys_of [] = []
keys_of (c ∷ cs) = keys_with (ascii_to_linux c) (keys_of cs)

keys_with-append :
    (t : List (ℕ × Bool)) (o : Option (ℕ × Bool)) (ks : List (ℕ × Bool))
    → (t ++ keys_with o []) ++ ks ≡ t ++ keys_with o ks
keys_with-append t none ks = ap (λ l. l ++ ks) (append-nil t)
keys_with-append t (some k) ks = append_assoc t (k ∷ []) ks

plain :
    (code : ℕ) (shift : Bool) (t : List (ℕ × Bool))
    → code ≢ key_leftshift
    → read_events
        ((if shift then tap_key key_leftshift true else [])
          ++ (tap_key code true
              ++ (tap_key code false ++ (if shift then tap_key key_leftshift false else []))))
        (record { shift = false; typed = t })
      ≡ record { shift = false; typed = t ++ ((code, shift) ∷ []) }
unfolding tap_key
plain code false t h = ground arith
plain code true t h = ground arith

type_char-none : (c : ℕ) → ascii_to_linux c ≡ none → type_char c ≡ []
unfolding type_char
type_char-none c e = rw (e, type_char) refl

type_char-keys :
    (c : ℕ) (t : List (ℕ × Bool))
    → IsNotM c
    → read_events (type_char c) (record { shift = false; typed = t })
      ≡ record { shift = false; typed = t ++ keys_with (ascii_to_linux c) [] }
unfolding type_char tap_key
type_char-keys c t h = elim (Option-cases (ascii_to_linux c)) [
  | inl e ↦ rw (type_char-none c e, e, append-nil) refl
  | inr ((code, shift), e) ↦
      rw (e, type_char)
        (plain code shift t (subst (Given (λ k. k.0 ≢ key_leftshift)) e (not_on_shift c h)))
]

-- A text without `m` and `M` is read as the keys of its characters, in order, each with its Shift.
pub type_chars-keys :
    (cs : List ℕ) (t : List (ℕ × Bool))
    → All IsNotM cs
    → read_events (type_chars cs) (record { shift = false; typed = t })
      ≡ record { shift = false; typed = t ++ keys_of cs }
unfolding type_chars
type_chars-keys [] t h = rw append-nil
type_chars-keys (c ∷ cs) t h =
    read_events-append (type_char c) (type_chars cs) _
    ∙ ap (read_events (type_chars cs)) (type_char-keys c t h.0)
    ∙ type_chars-keys cs (t ++ keys_with (ascii_to_linux c) []) h.1
    ∙ ap (λ l. record { shift = false; typed = l })
        (keys_with-append t (ascii_to_linux c) (keys_of cs))
