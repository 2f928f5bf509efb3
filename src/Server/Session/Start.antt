-- ===== src/Server/Session/Start.antt =====
-- The opening sends the encoded handshake and nothing else.
use droidmirror.Base.{
  ℕ, ◌^◌, ◌<◌, ◌≡◌, refl, sym, ap, subst, ◌∙◌, arith, ◌⊎◌, inl, inr, none, some, List, [], ◌++◌,
  append-nil, Bool-cases,
}
use droidmirror.Base.Result.{Result, ok, err}
use droidmirror.Base.Text.{ascii}
use droidmirror.Base.Utf8.{is_utf8}
use droidmirror.Base.Float.{Float}
use droidmirror.Base.Int.{ℤ}
use droidmirror.Base.Bytes.{All, IsByte}
use droidmirror.Proto.Types.{Handshake, version, cap_uinput, ProtoError}
use droidmirror.Proto.IsTyped.{IsTypedHandshake, IsText}
use droidmirror.Proto.Handshake.{encode_handshake}
use droidmirror.Proto.Frames.{empty_waits}
use droidmirror.Server.Args.{ServerConfig}
use droidmirror.Server.Net.{Written, write_all}
use droidmirror.Server.Net.Sends.{Sends, write_all-Sends}
use droidmirror.Server.Capture.{Capture, DisplayInfo, wait_csd}
use droidmirror.Server.Capture.Whole.{wait_csd-All, start-csd}
use droidmirror.Server.Session.{
  Session, Phone, as_u16, display_or_default, or_shell, or_uinput, open_inject,
}
use droidmirror.Server.Session.Opening.{
  Opened, refused, opened, unsent, ◌>>=◌, or_text, or_proto, or_net, caps_of, greeting_of, greet,
  with_capture, open_session, first_state,
}
use droidmirror.Server.Session.Stream.{Served}
use droidmirror.Server.Session.Rounds.{PhoneLaws, IsGood}

pub >>=-eq-opened {ℓ κ} :
    {X : Type ℓ} {Y : Type κ} (first : Opened X) (next : X → Opened Y) {out : Y}
    → (first >>= next) ≡ opened out
    → (mid : X) × (first ≡ opened mid) × (next mid ≡ opened out)
>>=-eq-opened (opened x) next e = (x, refl, e)
>>=-eq-opened (refused x) next e = cc
>>=-eq-opened unsent next e = cc

or_proto-eq : {A : Type 0} (r : Result ProtoError A) {a : A} → or_proto r ≡ opened a → r ≡ ok a
or_proto-eq (ok a) e = cc
or_proto-eq (err x) e = cc

or_net-eq : {N : Type 0} (r : Written N) {w : N} → or_net r ≡ opened w → r ≡ some (ok tt, w)
or_net-eq none e = cc
or_net-eq (some (ok tt, w)) e = cc
or_net-eq (some (err x, w)) e = cc

pub opened-eq {ℓ} : {X : Type ℓ} {a b : X} → opened a ≡ opened b → a ≡ b
opened-eq e = cc

or_text-eq :
    {A S : Type 0} (r : Result (List ℕ) A) (s : S) {a : A} {t : S}
    → or_text (r, s) ≡ opened (a, t)
    → (r ≡ ok a) × (s ≡ t)
or_text-eq (ok a) s e = (cc, cc)
or_text-eq (err x) s e = cc

-- A capability that an injector adds.
abbrev IsInjectCap : ℕ → Type 0
IsInjectCap cap_bits = (cap_bits ≡ 0) ⊎ (cap_bits ≡ cap_uinput)

caps-IsByte :
    (cfg : ServerConfig) (cap_bits : ℕ) → IsInjectCap cap_bits → IsByte (caps_of cfg cap_bits)
caps-IsByte cfg cap_bits h = elim (Bool-cases cfg.h265) [
  | inl e ↦ elim h [ inl z ↦ rw (e, z) (omega arith) | inr u ↦ rw (e, u) (omega arith) ]
  | inr e ↦ elim h [ inl z ↦ rw (e, z) (omega arith) | inr u ↦ rw (e, u) (omega arith) ]
]

module _ {N J I : Type 0} (float : Float) (phone : Phone N J I) (fuel : ℕ)
    (laws : PhoneLaws phone) where
  open laws use {sock_laws, media_laws, ticks, accepts}
  open sock_laws use {sent}

  -- A handshake that a client can read has been sent, and the loop begins in a good state.
  pub record Greeted (name : List ℕ) (hello : Handshake) (s : Session N J I) : Type 0 where
    pub prefix : List ℕ
    pub typed : IsTypedHandshake hello
    pub of_version : hello.version_byte ≡ version
    pub named : hello.device_name ≡ name
    pub encoded : encode_handshake hello ≡ ok prefix
    pub good : IsGood float phone fuel laws prefix s

  greet-Greeted :
      (cfg : ServerConfig) (info : DisplayInfo) (c : Capture) (i : I) (cap_bits : ℕ) (w : N) (j : J)
      (hello : Handshake) (s : Session N J I)
      → IsText info.name
      → All IsByte c.csd
      → IsInjectCap cap_bits
      → sent w ≡ []
      → greet float phone fuel cfg info c i cap_bits w j ≡ opened (hello, s)
      → Greeted info.name hello s
  unfolding greet first_state
  greet-Greeted cfg info c i cap_bits w j hello s hn hc hb hs e =
      let (csd, (c1, j1)) = wait_csd phone.media c j in
      let (whole, kept) = wait_csd-All phone.media media_laws c j hc in
      let hello0 = greeting_of float cfg info c csd cap_bits in
      let state = λ (w1 : N). first_state float phone fuel info c1 i j1 w1 in
      let next = λ (raw : List ℕ).
        or_net (write_all phone.sock fuel raw w) >>= λ w1. opened (hello0, state w1) in
      let (raw, e1, e2) = >>=-eq-opened (or_proto (encode_handshake hello0)) next e in
      let (w1, e3, e4) =
        >>=-eq-opened (or_net (write_all phone.sock fuel raw w))
          (λ (w1 : N). opened (hello0, state w1)) e2 in
      let fits : (n : ℕ) → as_u16 n < 2 ^ 16 = λ (n : ℕ). omega arith in
      let sends =
        subst (Sends phone.sock sock_laws raw w) (or_net-eq _ e3)
          (write_all-Sends phone.sock sock_laws fuel raw w) in
      let served : Served raw (sent (state w1).net) = record {
        ms = [];
        whole = [];
        tail = [];
        pictures = tt;
        encoded = refl;
        bytes = ticks w1 ∙ sends ∙ ap (λ l. l ++ raw) hs ∙ sym (append-nil raw);
        cut = empty_waits [] (omega arith);
      } in
      let first : Greeted info.name hello0 (state w1) = record {
        prefix = raw;
        typed = (omega arith, fits _, fits _, whole, hn, caps-IsByte cfg cap_bits hb);
        of_version = refl;
        named = refl;
        encoded = or_proto-eq _ e1;
        good = ((served, refl), kept);
      } in
      subst (λ (p : Handshake × Session N J I). Greeted info.name p.0 p.1) (opened-eq e4) first

  or_shell-cap :
      (r : Result (List ℕ) I) (j : J) → IsInjectCap (or_shell float phone fuel (r, j)).0.1
  or_shell-cap (ok i) j = inr refl
  or_shell-cap (err e) j = inl refl

  or_uinput-cap :
      (w h : ℤ) (r : Result (List ℕ) I) (j : J)
      → IsInjectCap (or_uinput float phone fuel w h (r, j)).0.1
  or_uinput-cap w h (ok i) j = inl refl
  or_uinput-cap w h (err e) j = or_shell-cap _ _

  with_capture-Greeted :
      (cfg : ServerConfig) (info : DisplayInfo) (w : N) (c : Capture) (j : J) (hello : Handshake)
      (s : Session N J I)
      → IsText info.name
      → All IsByte c.csd
      → with_capture float phone fuel cfg info w (c, j) ≡ opened (hello, s)
      → Greeted info.name hello s
  unfolding with_capture open_inject
  with_capture-Greeted cfg info w c j hello s hn hc e =
      let ((i, cap_bits), j1) =
        open_inject float phone fuel c.width c.height info.width info.height j in
      let greets =
        λ (w2 : N). greet float phone fuel cfg info c i cap_bits (phone.set_nonblock w2) j1 in
      let ((u, w1), e1, e2) =
        >>=-eq-opened (or_text (phone.bind (ascii "droidmirror") w))
          (λ (p : Unit {0} × N). or_text (phone.accept p.1) >>= λ (v, w2). greets w2) e in
      let ((v, w2), e3, e4) =
        >>=-eq-opened (or_text (phone.accept w1)) (λ (p : Unit {0} × N). greets p.1) e2 in
      let (er, es) = or_text-eq _ _ e3 in
      let accepted : phone.accept w1 ≡ (ok tt, w2) = λ k. (er k, es k) in
      greet-Greeted cfg info c i cap_bits (phone.set_nonblock w2) j1 hello s hn hc
        (or_uinput-cap _ _ _ _) (accepts w1 w2 accepted) e4

  name-IsText :
      (j : J) (r : Result (List ℕ) DisplayInfo)
      → (phone.media.display_info j).0 ≡ r
      → IsText (display_or_default r).name
  unfolding display_or_default is_utf8
  name-IsText j (ok info) e = media_laws.name j info e
  name-IsText j (err x) e = (omega arith, refl)

  -- An opening that succeeds has greeted the client.
  pub open_session-Greeted :
      (cfg : ServerConfig) (w : N) (j : J) (hello : Handshake) (s : Session N J I)
      → open_session float phone fuel cfg w j ≡ opened (hello, s)
      → Greeted (display_or_default (phone.media.display_info j).0).name hello s
  unfolding open_session
  open_session-Greeted cfg w j hello s e =
      let (r, j1) = phone.media.display_info j in
      let info = display_or_default r in
      let ((c, j2), e1, e2) =
        >>=-eq-opened (or_text _) (with_capture float phone fuel cfg info w) e in
      let (er, es) = or_text-eq _ _ e1 in
      with_capture-Greeted cfg info w c j2 hello s (name-IsText j _ refl)
        (start-csd phone.media _ _ _ _ _ _ c er) e2
