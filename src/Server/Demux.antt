-- ===== src/Server/Demux.antt =====
-- `ControlDemux::push` against the list of messages of its stream.
use droidmirror.Base.{
  ℕ, zero, suc, ◌≤◌, ◌≡◌, refl, ap, sym, ◌∙◌, List, [], ◌∷◌, ◌++◌, length, drop, some, none, arith,
  append-nil, append_assoc, flatten,
}
use droidmirror.Base.Result.{ok, err}
use droidmirror.Base.Float.{Float}
use droidmirror.Proto.Types.{Message, ProtoError, error_text}
use droidmirror.Proto.Decode.{try_decode_frame}
use droidmirror.Proto.Frames.{
  End, waiting, broken, Parsed, frames, empty_waits, frames-waits, frames-gives, frames-fails,
  frames-append, frames-encoded, IsEncoded, continue_with, waits, gives, fails, decoded,
  drop_shorter,
}
use droidmirror.Server.Control.{Inject, EncoderCtrl, Device, Pushed, apply_message, push_loop, push}

module _ {I E : Type 0} (f : Float) (inj : Inject I) (enc : EncoderCtrl E) where
  -- The messages one after the other.
  abbrev pub apply_all : List Message → Device f inj enc → Device f inj enc
  apply_all [] d = d
  apply_all (m ∷ ms) d = apply_all ms (apply_message f inj enc m d)

  -- What the end of the stream leaves: bytes that wait, or an empty buffer and an error.
  abbrev pub outcome : End → Device f inj enc → Pushed f inj enc
  outcome (waiting rest) d = (rest, d, ok tt)
  outcome (broken e) d = ([], d, err (error_text e))

  abbrev pub handle : Parsed → Device f inj enc → Pushed f inj enc
  handle (ms, e) d = outcome e (apply_all ms d)

  loop_waits :
      (n : ℕ) (buf : List ℕ) (d : Device f inj enc)
      → try_decode_frame buf ≡ ok none
      → push_loop f inj enc n buf d ≡ (buf, d, ok tt)
  unfolding push_loop
  loop_waits zero buf d e = refl
  loop_waits (suc n) buf d e = rw (e, push_loop)

  loop_gives :
      (n : ℕ) (buf : List ℕ) (d : Device f inj enc) {m : Message} {k : ℕ}
      → try_decode_frame buf ≡ ok (some (m, k))
      → push_loop f inj enc (suc n) buf d
        ≡ push_loop f inj enc n (drop k buf) (apply_message f inj enc m d)
  unfolding push_loop
  loop_gives n buf d e = rw (e, push_loop)

  loop_fails :
      (n : ℕ) (buf : List ℕ) (d : Device f inj enc) {x : ProtoError}
      → try_decode_frame buf ≡ err x
      → push_loop f inj enc (suc n) buf d ≡ ([], d, err (error_text x))
  unfolding push_loop
  loop_fails n buf d e = rw (e, push_loop)

  push_loop-handle :
      (n : ℕ) (buf : List ℕ) (d : Device f inj enc)
      → length buf ≤ n
      → push_loop f inj enc n buf d ≡ handle (frames buf) d
  push_loop-handle zero buf d h =
      loop_waits zero buf d (empty_waits buf h)
      ∙ sym (ap (λ p. handle p d) (frames-waits buf (empty_waits buf h)))
  push_loop-handle (suc n) buf d h = elim (decoded buf) [
    | waits e ↦ loop_waits (suc n) buf d e ∙ sym (ap (λ p. handle p d) (frames-waits buf e))
    | gives m k e ↦
        loop_gives n buf d e
        ∙ push_loop-handle n (drop k buf) (apply_message f inj enc m d)
            (omega (arith, drop_shorter buf e))
        ∙ sym (ap (λ p. handle p d) (frames-gives buf e))
    | fails x e ↦ loop_fails n buf d e ∙ sym (ap (λ p. handle p d) (frames-fails buf e))
  ]

  -- A call applies the messages of the buffered and the new bytes, once each and in order; it keeps
  -- what waits, or clears the buffer and gives the error's text.
  pub push-handle :
      (input buf : List ℕ) (d : Device f inj enc)
      → push f inj enc input buf d ≡ handle (frames (buf ++ input)) d
  unfolding push
  push-handle input buf d = push_loop-handle (length (buf ++ input)) (buf ++ input) d (omega arith)

  -- A second call, after a first one that gave no error.
  abbrev pub then_push : List ℕ → Pushed f inj enc → Pushed f inj enc
  then_push more (buf, d, ok u) = push f inj enc more buf d
  then_push more (buf, d, err e) = (buf, d, err e)

  apply_all-append :
      (ms ms' : List Message) (d : Device f inj enc)
      → apply_all (ms ++ ms') d ≡ apply_all ms' (apply_all ms d)
  apply_all-append [] ms' d = refl
  apply_all-append (m ∷ ms) ms' d = apply_all-append ms ms' (apply_message f inj enc m d)

  handle-continue_with :
      (more : List ℕ) (p : Parsed) (d : Device f inj enc)
      → handle (continue_with more p) d ≡ then_push more (handle p d)
  handle-continue_with more (ms, waiting rest) d =
      ap (outcome (frames (rest ++ more)).1) (apply_all-append ms (frames (rest ++ more)).0 d)
      ∙ sym (push-handle more rest (apply_all ms d))
  handle-continue_with more (ms, broken e) d = refl

  -- While no call gives an error, two calls do what one call on all the bytes does; and an error of
  -- the first call is the error of the one call.
  pub push-append :
      (a b buf : List ℕ) (d : Device f inj enc)
      → push f inj enc (a ++ b) buf d ≡ then_push b (push f inj enc a buf d)
  push-append a b buf d =
      push-handle (a ++ b) buf d
      ∙ ap (λ l. handle (frames l) d) (sym (append_assoc buf a b))
      ∙ ap (λ p. handle p d) (frames-append (buf ++ a) b)
      ∙ handle-continue_with b (frames (buf ++ a)) d
      ∙ ap (then_push b) (sym (push-handle a buf d))

  -- One call after the other, until one gives an error.
  abbrev pub push_chunks : List (List ℕ) → Pushed f inj enc → Pushed f inj enc
  push_chunks [] p = p
  push_chunks (c ∷ cs) p = push_chunks cs (then_push c p)

  push_chunks-push :
      (c : List ℕ) (cs : List (List ℕ)) (buf : List ℕ) (d : Device f inj enc)
      → push_chunks cs (push f inj enc c buf d) ≡ push f inj enc (c ++ flatten cs) buf d
  push_chunks-push c [] buf d = ap (λ l. push f inj enc l buf d) (sym (append-nil c))
  push_chunks-push c (c' ∷ cs) buf d =
      ap (push_chunks cs) (sym (push-append c c' buf d))
      ∙ push_chunks-push (c ++ c') cs buf d
      ∙ ap (λ l. push f inj enc l buf d) (append_assoc c c' (flatten cs))

  nothing_left : frames [] ≡ ([], waiting [])
  nothing_left = frames-waits [] (empty_waits [] (omega arith))

  -- Encoded messages, cut into calls anywhere: the device gets each message once, in order, no call
  -- fails, and nothing is left in the buffer.
  pub push_chunks-encoded :
      (ms : List Message) (c : List ℕ) (cs : List (List ℕ)) (d : Device f inj enc)
      → IsEncoded ms (c ++ flatten cs)
      → push_chunks (c ∷ cs) ([], d, ok tt) ≡ ([], apply_all ms d, ok tt)
  push_chunks-encoded ms c cs d es =
      push_chunks-push c cs [] d
      ∙ push-handle (c ++ flatten cs) [] d
      ∙ ap (λ b. handle (frames b) d) (sym (append-nil (c ++ flatten cs)))
      ∙ ap (λ p. handle p d) (frames-encoded ms (c ++ flatten cs) [] es)
      ∙ ap (λ p. handle (ms ++ p.0, p.1) d) nothing_left
      ∙ ap (λ l. outcome (waiting []) (apply_all l d)) (append-nil ms)
