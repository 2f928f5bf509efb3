-- ===== src/Client/Handle.antt =====
-- The receive loop against the list of messages of its buffer: it handles each message once, in
-- order, and then the end of the stream.
use droidmirror.Base.{
  ℕ, zero, suc, ◌≤◌, ◌≡◌, refl, ap, sym, ◌∙◌, List, [], ◌∷◌, ◌++◌, length, drop, some, none, arith,
  append_assoc,
}
use droidmirror.Base.Result.{ok, err}
use droidmirror.Proto.Types.{Message, video_frame, ProtoError}
use droidmirror.Proto.Decode.{try_decode_frame}
use droidmirror.Proto.Frames.{
  End, waiting, broken, Parsed, after_message, frames, empty_waits, frames-waits, frames-gives,
  frames-fails, waits, gives, fails, decoded, drop_shorter,
}
use droidmirror.Client.State.{Client, Handled, ◌>>=◌}
use droidmirror.Client.Receive.{fail, apply_message, drain_frames, drain_all}

pub >>=_assoc : (h : Handled) (f g : Client → Handled) → (h >>= f) >>= g ≡ (h >>= λ c. f c >>= g)
>>=_assoc (c, out) f g = ap (λ o. (((f c >>= g).0, o))) (append_assoc out (f c).1 (g (f c).0).1)

-- The messages one after the other, and the end of the stream.
abbrev pub apply_all : List Message → Client → Handled
apply_all [] c = (c, [])
apply_all (m ∷ ms) c = apply_message m c >>= apply_all ms

abbrev pub finish : End → Client → Handled
finish (waiting rest) c = (record c { buf = rest }, [])
finish (broken e) c = fail e c

abbrev pub handle : Parsed → Client → Handled
handle (ms, e) c = apply_all ms c >>= finish e

-- The handlers do not look at the buffer.
abbrev on_buf : List ℕ → Handled → Handled
on_buf b (c, out) = (record c { buf = b }, out)

apply_message-on_buf :
    (m : Message) (b : List ℕ) (c : Client)
    → apply_message m (record c { buf = b }) ≡ on_buf b (apply_message m c)
unfolding apply_message
apply_message-on_buf (video_frame p k n) b c = ground arith
apply_message-on_buf m b c = refl

pub handle-cons :
    (m : Message) (p : Parsed) (c : Client)
    → handle (after_message m p) c ≡ apply_message m c >>= handle p
handle-cons m (ms, e) c = >>=_assoc (apply_message m c) (apply_all ms) (finish e)

pub handle-on_buf :
    (ms : List Message) (e : End) (b : List ℕ) (c : Client)
    → handle (ms, e) (record c { buf = b }) ≡ handle (ms, e) c
handle-on_buf [] (waiting rest) b c = refl
handle-on_buf [] (broken x) b c = unfold fail in refl
handle-on_buf (m ∷ ms) e b c =
    handle-cons m (ms, e) (record c { buf = b })
    ∙ ap (λ h. h >>= handle (ms, e)) (apply_message-on_buf m b c)
    ∙ ap (λ h. (h.0, (apply_message m c).1 ++ h.1)) (handle-on_buf ms e b (apply_message m c).0)
    ∙ sym (handle-cons m (ms, e) c)

drain_waits : (f : ℕ) (c : Client) → try_decode_frame c.buf ≡ ok none → drain_frames f c ≡ (c, [])
unfolding drain_frames
drain_waits zero c e = refl
drain_waits (suc f) c e = rw (e, drain_frames)

pub apply_message-buf : (m : Message) (c : Client) → (apply_message m c).0.buf ≡ c.buf
unfolding apply_message
apply_message-buf (video_frame p k n) c = ground arith
apply_message-buf m c = refl

drain_gives :
    (f : ℕ) (c : Client) {m : Message} {n : ℕ}
    → try_decode_frame c.buf ≡ ok (some (m, n))
    → drain_frames (suc f) c
      ≡ (apply_message m (record c { buf = drop n c.buf }) >>= drain_frames f)
unfolding drain_frames
drain_gives f c e = rw (e, drain_frames)

drain_fails :
    (f : ℕ) (c : Client) {x : ProtoError}
    → try_decode_frame c.buf ≡ err x
    → drain_frames (suc f) c ≡ fail x c
unfolding drain_frames
drain_fails f c e = rw (e, drain_frames)

-- With fuel for each byte the loop handles the messages of the buffer, and its end.
drain_frames-handle :
    (f : ℕ) (c : Client) → length c.buf ≤ f → drain_frames f c ≡ handle (frames c.buf) c
drain_frames-handle zero c h =
    drain_waits zero c (empty_waits c.buf h)
    ∙ sym (ap (λ p. handle p c) (frames-waits c.buf (empty_waits c.buf h)))
drain_frames-handle (suc f) c h = elim (decoded c.buf) [
  | waits e ↦ drain_waits (suc f) c e ∙ sym (ap (λ p. handle p c) (frames-waits c.buf e))
  | gives m n e ↦
      let c1 : Client = record c { buf = drop n c.buf } in
      let (c2, o) = apply_message m c1 in
      let rest = frames (drop n c.buf) in
      let same : c2.buf ≡ drop n c.buf = apply_message-buf m c1 in
      let step : drain_frames f c2 ≡ handle rest c2 =
        drain_frames-handle f c2 (omega (arith, ap length same, drop_shorter c.buf e))
        ∙ ap (λ b. handle (frames b) c2) same in
      drain_gives f c e
      ∙ ap (λ h. (h.0, o ++ h.1)) step
      ∙ sym (handle-cons m rest c1)
      ∙ handle-on_buf (after_message m rest).0 (after_message m rest).1 (drop n c.buf) c
      ∙ sym (ap (λ p. handle p c) (frames-gives c.buf e))
  | fails x e ↦ drain_fails f c e ∙ sym (ap (λ p. handle p c) (frames-fails c.buf e))
]

pub drain_all-handle : (c : Client) → drain_all c ≡ handle (frames c.buf) c
drain_all-handle c = drain_frames-handle (length c.buf) c (omega arith)
