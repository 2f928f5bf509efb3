-- ===== src/Client/Session.antt =====
-- A whole session: the server's bytes from a new client on; and what the buffer holds between calls.
use droidmirror.Base.{
  ℕ, ◌+◌, ◌<◌, ◌≡◌, refl, ap, sym, ◌∙◌, true, false, List, ◌++◌, length, drop, none, arith, subst,
  Bool-cases, inl, inr,
}
use native.Mathlib.Decide.{dec_lt}
use droidmirror.Base.Result.{ok}
use droidmirror.Base.Bytes.{drop-append_length}
use droidmirror.Proto.Types.{Handshake, Message, max_frame_len, version}
use droidmirror.Proto.IsTyped.{IsTypedHandshake}
use droidmirror.Proto.Decode.{try_decode_frame}
use droidmirror.Proto.Handshake.{encode_handshake}
use droidmirror.Proto.Prefix.{try_decode_handshake-encode, Greeting, greeting}
use droidmirror.Proto.Stream.{try_decode_frame_decides}
use droidmirror.Proto.Frames.{
  End, waiting, broken, frames, IsEncoded, frames-encoded, EndWaits, frames-EndWaits,
}
use droidmirror.Client.State.{Client, new, ◌>>=◌}
use droidmirror.Client.Receive.{fail, apply_handshake, receive, on_bytes}
use droidmirror.Client.Handle.{handle}
use droidmirror.Client.Chunks.{
  greeted-handle, on_bytes-open, on_bytes-fatal, receive-greeted, receive-gives, receive-waits,
  receive-fails,
}

-- A handshake of this version, then encoded messages, then `rest`: a new client greets, handles the
-- messages in order, and goes on with `rest`.
pub on_bytes-session :
    (h : Handshake) (ms : List Message) (bytes rest : List ℕ) {prefix : List ℕ}
    → IsTypedHandshake h
    → h.version_byte ≡ version
    → encode_handshake h ≡ ok prefix
    → IsEncoded ms bytes
    → on_bytes (prefix ++ (bytes ++ rest)) new
      ≡ (apply_handshake h new >>= handle (ms ++ (frames rest).0, (frames rest).1))
on_bytes-session h ms bytes rest {prefix} t v e es =
    on_bytes-open (prefix ++ (bytes ++ rest)) new refl
    ∙ receive-gives (record new { buf = prefix ++ (bytes ++ rest) }) refl
        (try_decode_handshake-encode h (bytes ++ rest) t v e)
    ∙ greeted-handle h (drop (length prefix) (prefix ++ (bytes ++ rest))) new
    ∙ ap (λ b. apply_handshake h new >>= handle (frames b))
        (drop-append_length prefix (bytes ++ rest))
    ∙ ap (λ p. apply_handshake h new >>= handle p) (frames-encoded ms bytes rest es)

-- Between calls a live client that is past the handshake holds no whole frame.
abbrev IsIdle : Client → Type 0
IsIdle c = c.fatal ≡ false → c.handshake ≡ true → try_decode_frame c.buf ≡ ok none

handle-IsIdle :
    (ms : List Message) (e : End) (c : Client) → EndWaits e → IsIdle (handle (ms, e) c).0
unfolding fail
handle-IsIdle ms (waiting rest) c w = λ hf hh. w
handle-IsIdle ms (broken x) c w = λ hf hh. cc

receive-IsIdle : (c : Client) → IsIdle (receive c).0
unfolding fail
receive-IsIdle c = elim (Bool-cases c.handshake) [
  | inl old ↦
      rw (receive-greeted c old)
        (handle-IsIdle (frames c.buf).0 (frames c.buf).1 c (frames-EndWaits c.buf))
  | inr fresh ↦ elim (greeting c.buf) [
    | Greeting.waits e ↦ subst (λ r. IsIdle r.0) (sym (receive-waits c fresh e)) (λ hf hh. cc)
    | Greeting.gives h n e ↦
        subst (λ r. IsIdle r.0) (sym (receive-gives c fresh e ∙ greeted-handle h (drop n c.buf) c))
          (handle-IsIdle (frames (drop n c.buf)).0 (frames (drop n c.buf)).1 (apply_handshake h c).0
            (frames-EndWaits (drop n c.buf)))
    | Greeting.fails x e ↦ subst (λ r. IsIdle r.0) (sym (receive-fails c fresh e)) (λ hf hh. cc)
  ]
]

-- After any call, a client that is past the handshake and not broken has taken every whole frame
-- out of its buffer, which holds less than `4 + max_frame_len` bytes.
pub on_bytes-buf :
    (bytes : List ℕ) (c : Client)
    → (on_bytes bytes c).0.fatal ≡ false
    → (on_bytes bytes c).0.handshake ≡ true
    → (try_decode_frame (on_bytes bytes c).0.buf ≡ ok none)
      × (length (on_bytes bytes c).0.buf < 4 + max_frame_len)
on_bytes-buf bytes c hf hh = (idle, short)
  where
    live : c.fatal ≡ false
    live = elim (Bool-cases c.fatal) [ inl dead ↦ cc (on_bytes-fatal bytes c dead) | inr l ↦ l ]

    idle : try_decode_frame (on_bytes bytes c).0.buf ≡ ok none
    idle =
        subst (λ r. IsIdle r.0) (sym (on_bytes-open bytes c live))
          (receive-IsIdle (record c { buf = c.buf ++ bytes })) hf hh

    short : length (on_bytes bytes c).0.buf < 4 + max_frame_len
    short = elim (dec_lt (length (on_bytes bytes c).0.buf) (4 + max_frame_len)) [
      | yes p ↦ p
      | no p ↦ absurd (try_decode_frame_decides _ (omega arith) idle)
    ]
