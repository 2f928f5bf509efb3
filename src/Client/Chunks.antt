-- ===== src/Client/Chunks.antt =====
-- `on_bytes` does not depend on how the bytes of the stream are cut into calls.
use droidmirror.Base.{
  ℕ, ◌≡◌, refl, ap, sym, ◌∙◌, true, false, List, [], ◌∷◌, ◌++◌, drop, some, none, arith,
  append_assoc, append-nil, Bool-cases, if_true, if_false, inl, inr,
}
use droidmirror.Base.Result.{ok, err}
use droidmirror.Proto.Types.{Handshake, Message, video_frame, ProtoError}
use droidmirror.Proto.Handshake.{try_decode_handshake}
use droidmirror.Proto.Prefix.{handshake_gives-append, handshake_fails-append, Greeting, greeting}
use droidmirror.Proto.Frames.{End, waiting, broken, frames, frames-append, continue_with}
use droidmirror.Client.State.{Client, ◌>>=◌}
use droidmirror.Client.Receive.{fail, apply_handshake, apply_message, drain_all, receive, on_bytes}
use droidmirror.Client.Handle.{
  >>=_assoc, apply_all, finish, handle, handle-on_buf, drain_all-handle,
}

-- A message leaves both flags of the connection alone.
apply_message_flags :
    (m : Message) (c : Client)
    → ((apply_message m c).0.fatal ≡ c.fatal) × ((apply_message m c).0.handshake ≡ c.handshake)
unfolding apply_message
apply_message_flags (video_frame p k n) c = ground arith
apply_message_flags m c = (refl, refl)

pub apply_all_flags :
    (ms : List Message) (c : Client)
    → ((apply_all ms c).0.fatal ≡ c.fatal) × ((apply_all ms c).0.handshake ≡ c.handshake)
apply_all_flags [] c = (refl, refl)
apply_all_flags (m ∷ ms) c =
    let (f, h) = apply_all_flags ms (apply_message m c).0 in
    let (f', h') = apply_message_flags m c in (f ∙ f', h ∙ h')

pub apply_all-append :
    (ms ms' : List Message) (c : Client)
    → apply_all (ms ++ ms') c ≡ (apply_all ms c >>= apply_all ms')
apply_all-append [] ms' c = refl
apply_all-append (m ∷ ms) ms' c =
    ap (λ h. (h.0, (apply_message m c).1 ++ h.1)) (apply_all-append ms ms' (apply_message m c).0)
    ∙ sym (>>=_assoc (apply_message m c) (apply_all ms) (apply_all ms'))

pub receive-greeted : (c : Client) → c.handshake ≡ true → receive c ≡ handle (frames c.buf) c
unfolding receive
receive-greeted c e = if_true _ _ e ∙ drain_all-handle c

pub on_bytes-open :
    (bytes : List ℕ) (c : Client)
    → c.fatal ≡ false
    → on_bytes bytes c ≡ receive (record c { buf = c.buf ++ bytes })
unfolding on_bytes
on_bytes-open bytes c e = if_false _ _ e

pub on_bytes-fatal : (bytes : List ℕ) (c : Client) → c.fatal ≡ true → on_bytes bytes c ≡ (c, [])
unfolding on_bytes
on_bytes-fatal bytes c e = if_true _ _ e

handle-continue_with :
    (more : List ℕ) (ms : List Message) (e : End) (c : Client)
    → c.fatal ≡ false
    → c.handshake ≡ true
    → handle (continue_with more (ms, e)) c ≡ (handle (ms, e) c >>= on_bytes more)
handle-continue_with more ms (waiting rest) c hf hh =
    let c1 = (apply_all ms c).0 in
    let (ff, fh) = apply_all_flags ms c in
    let then : on_bytes more (record c1 { buf = rest }) ≡ handle (frames (rest ++ more)) c1 =
      on_bytes-open more (record c1 { buf = rest }) (ff ∙ hf)
      ∙ receive-greeted (record c1 { buf = rest ++ more }) (fh ∙ hh)
      ∙ handle-on_buf (frames (rest ++ more)).0 (frames (rest ++ more)).1 (rest ++ more) c1 in
    ap (λ h. h >>= finish (frames (rest ++ more)).1)
      (apply_all-append ms (frames (rest ++ more)).0 c)
    ∙ >>=_assoc (apply_all ms c) (apply_all (frames (rest ++ more)).0)
        (finish (frames (rest ++ more)).1)
    ∙ ap (λ h. (h.0, (apply_all ms c).1 ++ h.1)) (sym then)
    ∙ ap
        (λ o. (
          (on_bytes more (record c1 { buf = rest })).0,
          o ++ (on_bytes more (record c1 { buf = rest })).1,
        ))
        (sym (append-nil (apply_all ms c).1))
handle-continue_with more ms (broken x) c hf hh =
    let h = handle (ms, broken x) c in
    ap (λ o. (h.0, o)) (sym (append-nil h.1))
    ∙ ap (λ r. (r.0, h.1 ++ r.1)) (sym (on_bytes-fatal more h.0 (unfold fail in refl)))

module _ (c : Client) (new : c.handshake ≡ false) where
  pub receive-waits : try_decode_handshake c.buf ≡ ok none → receive c ≡ (c, [])
  unfolding receive
  receive-waits e = if_false _ _ new ∙ rw e

  pub receive-gives :
      {h : Handshake} {n : ℕ}
      → try_decode_handshake c.buf ≡ ok (some (h, n))
      → receive c ≡ (apply_handshake h (record c { buf = drop n c.buf }) >>= drain_all)
  unfolding receive
  receive-gives e = if_false _ _ new ∙ rw e

  pub receive-fails : {x : ProtoError} → try_decode_handshake c.buf ≡ err x → receive c ≡ fail x c
  unfolding receive
  receive-fails e = if_false _ _ new ∙ rw e

apply_handshake_flags :
    (h : Handshake) (c : Client)
    → ((apply_handshake h c).0.fatal ≡ c.fatal) × ((apply_handshake h c).0.handshake ≡ true)
unfolding apply_handshake
apply_handshake_flags h c = (refl, refl)

apply_handshake-on_buf :
    (h : Handshake) (b : List ℕ) (c : Client)
    → apply_handshake h (record c { buf = b })
      ≡ (record (apply_handshake h c).0 { buf = b }, (apply_handshake h c).1)
unfolding apply_handshake
apply_handshake-on_buf h b c = refl

pub greeted-handle :
    (h : Handshake) (b : List ℕ) (c : Client)
    → (apply_handshake h (record c { buf = b }) >>= drain_all)
      ≡ (apply_handshake h c >>= handle (frames b))
greeted-handle h b c =
    let g = (apply_handshake h c).0 in
    ap (λ r. r >>= drain_all) (apply_handshake-on_buf h b c)
    ∙ ap (λ r. (r.0, (apply_handshake h c).1 ++ r.1))
        (drain_all-handle (record g { buf = b }) ∙ handle-on_buf (frames b).0 (frames b).1 b g)

-- Greeted, the client handles the bytes behind the handshake, and those of the next call.
greeted-append :
    (h : Handshake) (rest more : List ℕ) (c : Client)
    → c.fatal ≡ false
    → (apply_handshake h (record c { buf = rest ++ more }) >>= drain_all)
      ≡ ((apply_handshake h (record c { buf = rest }) >>= drain_all) >>= on_bytes more)
greeted-append h rest more c hf =
    let g = (apply_handshake h c).0 in
    let (gf, gh) = apply_handshake_flags h c in
    greeted-handle h (rest ++ more) c
    ∙ ap (λ r. (r.0, (apply_handshake h c).1 ++ r.1))
        (ap (λ p. handle p g) (frames-append rest more)
          ∙ handle-continue_with more (frames rest).0 (frames rest).1 g (gf ∙ hf) gh)
    ∙ sym (>>=_assoc (apply_handshake h c) (handle (frames rest)) (on_bytes more))
    ∙ ap (λ r. r >>= on_bytes more) (sym (greeted-handle h rest c))

receive-append :
    (c : Client) (more : List ℕ)
    → c.fatal ≡ false
    → receive (record c { buf = c.buf ++ more }) ≡ (receive c >>= on_bytes more)
unfolding fail
receive-append c more hf = elim (Bool-cases c.handshake) [
  | inl old ↦
      receive-greeted (record c { buf = c.buf ++ more }) old
      ∙ handle-on_buf (frames (c.buf ++ more)).0 (frames (c.buf ++ more)).1 (c.buf ++ more) c
      ∙ ap (λ p. handle p c) (frames-append c.buf more)
      ∙ handle-continue_with more (frames c.buf).0 (frames c.buf).1 c hf old
      ∙ ap (λ h. h >>= on_bytes more) (sym (receive-greeted c old))
  | inr new ↦ elim (greeting c.buf) [
    | Greeting.waits e ↦
        sym (ap (λ h. h >>= on_bytes more) (receive-waits c new e) ∙ on_bytes-open more c hf)
    | Greeting.gives h n e ↦
        receive-gives (record c { buf = c.buf ++ more }) new (handshake_gives-append c.buf more e).0
        ∙ ap (λ b. apply_handshake h (record c { buf = b }) >>= drain_all)
            (handshake_gives-append c.buf more e).1
        ∙ greeted-append h (drop n c.buf) more c hf
        ∙ sym (ap (λ r. r >>= on_bytes more) (receive-gives c new e))
    | Greeting.fails x e ↦
        receive-fails (record c { buf = c.buf ++ more }) new (handshake_fails-append c.buf more e)
        ∙ ap (λ r. (r.0, (fail x c).1 ++ r.1))
            (sym (on_bytes-fatal more (fail x c).0 (unfold fail in refl)))
        ∙ sym (ap (λ r. r >>= on_bytes more) (receive-fails c new e))
  ]
]

-- Two calls of `on_bytes` do what one call on all the bytes does: same client, same events in the
-- same order, from any client.
pub on_bytes-append :
    (a b : List ℕ) (c : Client) → on_bytes (a ++ b) c ≡ (on_bytes a c >>= on_bytes b)
on_bytes-append a b c = elim (Bool-cases c.fatal) [
  | inl dead ↦
      on_bytes-fatal (a ++ b) c dead
      ∙ sym (ap (λ h. h >>= on_bytes b) (on_bytes-fatal a c dead) ∙ on_bytes-fatal b c dead)
  | inr live ↦
      on_bytes-open (a ++ b) c live
      ∙ ap (λ l. receive (record c { buf = l })) (sym (append_assoc c.buf a b))
      ∙ receive-append (record c { buf = c.buf ++ a }) b live
      ∙ ap (λ h. h >>= on_bytes b) (sym (on_bytes-open a c live))
]
