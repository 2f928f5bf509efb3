-- ===== src/Proto/Frames.antt =====
-- The contract of a reader of framed messages: a byte stream is a list of messages and an end,
-- however it is cut into chunks. `crates/client` and `crates/server` both run this loop over
-- `try_decode_frame`; `frames` is what the loop is compared with.
use droidmirror.Base.{
  ℕ, zero, suc, ◌<◌, ◌≤◌, ◌≡◌, refl, ap, ◌∙◌, sym, List, [], ◌∷◌, ◌++◌, length, length-drop, drop,
  some, none, Option, arith, append_assoc,
}
use droidmirror.Base.Result.{Result, ok, err}
use droidmirror.Base.Bytes.{drop-append_length, drop-append_le}
use droidmirror.Proto.Types.{Message, ProtoError}
use droidmirror.Proto.IsTyped.{IsTyped, IsCanonical}
use droidmirror.Proto.Encode.{encode}
use droidmirror.Proto.Decode.{try_decode_frame}
use droidmirror.Proto.RoundTrip.{try_decode_frame-encode}
use droidmirror.Proto.Stream.{try_decode_frame-append, try_decode_frame_takes}

-- Bytes that wait for more, or the error that ended the stream.
pub data End : Type 0 where
  waiting : List ℕ → End
  broken : ProtoError → End

abbrev pub Parsed : Type 0
Parsed = List Message × End

abbrev pub after_message : Message → Parsed → Parsed
after_message m (ms, e) = (m ∷ ms, e)

-- The loop with fuel; a frame takes 5 bytes at least.
parse : ℕ → List ℕ → Parsed
parse zero buf = ([], waiting buf)
parse (suc f) buf = elim (try_decode_frame buf) [
  | ok none ↦ ([], waiting buf)
  | ok (some (m, n)) ↦ after_message m (parse f (drop n buf))
  | err e ↦ ([], broken e)
]

pub frames : List ℕ → Parsed
frames buf = parse (length buf) buf

pub data Decoded (buf : List ℕ) : Type 0 where
  waits : try_decode_frame buf ≡ ok none → Decoded buf
  gives : (m : Message) (n : ℕ) → try_decode_frame buf ≡ ok (some (m, n)) → Decoded buf
  fails : (e : ProtoError) → try_decode_frame buf ≡ err e → Decoded buf

pub decoded : (buf : List ℕ) → Decoded buf
decoded buf = go (try_decode_frame buf) refl
  where
    go : (r : Result ProtoError (Option (Message × ℕ))) → try_decode_frame buf ≡ r → Decoded buf
    go (ok none) e = waits e
    go (ok (some (m, n))) e = gives m n e
    go (err x) e = fails x e

parse-waits :
    (f : ℕ) (buf : List ℕ) → try_decode_frame buf ≡ ok none → parse f buf ≡ ([], waiting buf)
unfolding parse
parse-waits zero buf e = refl
parse-waits (suc f) buf e = rw (e, parse)

parse-gives :
    (f : ℕ) (buf : List ℕ) {m : Message} {n : ℕ}
    → try_decode_frame buf ≡ ok (some (m, n))
    → parse (suc f) buf ≡ after_message m (parse f (drop n buf))
unfolding parse
parse-gives f buf e = rw (e, parse)

parse-fails :
    (f : ℕ) (buf : List ℕ) {x : ProtoError}
    → try_decode_frame buf ≡ err x
    → parse (suc f) buf ≡ ([], broken x)
unfolding parse
parse-fails f buf e = rw (e, parse)

-- With no byte there is nothing to decide.
pub empty_waits : (buf : List ℕ) → length buf ≤ 0 → try_decode_frame buf ≡ ok none
unfolding try_decode_frame
empty_waits [] h = refl
empty_waits (b ∷ bs) h = elim h [ ]

pub drop_shorter :
    (buf : List ℕ) {m : Message} {n : ℕ}
    → try_decode_frame buf ≡ ok (some (m, n))
    → length (drop n buf) < length buf
drop_shorter buf {n = n} e = omega (arith, length-drop n buf, try_decode_frame_takes buf e)

-- Fuel for every byte is enough: more changes nothing.
parse-fuel : (f g : ℕ) (buf : List ℕ) → length buf ≤ f → length buf ≤ g → parse f buf ≡ parse g buf
parse-fuel zero g buf hf hg =
    parse-waits zero buf (empty_waits buf hf) ∙ sym (parse-waits g buf (empty_waits buf hf))
parse-fuel (suc f) zero buf hf hg =
    parse-waits (suc f) buf (empty_waits buf hg) ∙ sym (parse-waits zero buf (empty_waits buf hg))
parse-fuel (suc f) (suc g) buf hf hg = elim (decoded buf) [
  | waits e ↦ parse-waits (suc f) buf e ∙ sym (parse-waits (suc g) buf e)
  | gives m n e ↦
      parse-gives f buf e
      ∙ ap (after_message m) (
          parse-fuel f g (drop n buf) (omega (arith, drop_shorter buf e))
            (omega (arith, drop_shorter buf e)))
      ∙ sym (parse-gives g buf e)
  | fails x e ↦ parse-fails f buf e ∙ sym (parse-fails g buf e)
]

pub frames-waits : (buf : List ℕ) → try_decode_frame buf ≡ ok none → frames buf ≡ ([], waiting buf)
unfolding frames
frames-waits buf e = parse-waits (length buf) buf e

pub frames-gives :
    (buf : List ℕ) {m : Message} {n : ℕ}
    → try_decode_frame buf ≡ ok (some (m, n))
    → frames buf ≡ after_message m (frames (drop n buf))
unfolding frames
frames-gives buf {m} {n} e =
    parse-fuel (length buf) (suc (length buf)) buf (omega arith) (omega arith)
    ∙ parse-gives (length buf) buf e
    ∙ ap (after_message m)
        (parse-fuel (length buf) _ (drop n buf) (omega (arith, drop_shorter buf e)) (omega arith))

pub frames-fails :
    (buf : List ℕ) {x : ProtoError} → try_decode_frame buf ≡ err x → frames buf ≡ ([], broken x)
unfolding frames
frames-fails buf e =
    parse-fuel (length buf) (suc (length buf)) buf (omega arith) (omega arith)
    ∙ parse-fails (length buf) buf e

-- What more bytes do to a stream: they follow what waits; a broken stream stays broken.
abbrev pub continue_with : List ℕ → Parsed → Parsed
continue_with more (ms, waiting rest) = (ms ++ (frames (rest ++ more)).0, (frames (rest ++ more)).1)
continue_with more (ms, broken e) = (ms, broken e)

continue_with-after_message :
    (more : List ℕ) (m : Message) (p : Parsed)
    → after_message m (continue_with more p) ≡ continue_with more (after_message m p)
continue_with-after_message more m (ms, waiting rest) = refl
continue_with-after_message more m (ms, broken e) = refl

-- A decision on the front of a buffer is a decision on the whole.
pub gives-append :
    (buf more : List ℕ) {m : Message} {n : ℕ}
    → try_decode_frame buf ≡ ok (some (m, n))
    → (try_decode_frame (buf ++ more) ≡ ok (some (m, n)))
      × (drop n (buf ++ more) ≡ drop n buf ++ more)
gives-append buf more {n = n} e = (
  try_decode_frame-append buf more (λ w. cc (w, e)) ∙ e,
  drop-append_le n buf more (omega (arith, try_decode_frame_takes buf e)),
)

pub fails-append :
    (buf more : List ℕ) {x : ProtoError}
    → try_decode_frame buf ≡ err x
    → try_decode_frame (buf ++ more) ≡ err x
fails-append buf more e = try_decode_frame-append buf more (λ w. cc (w, e)) ∙ e

frames-append_within :
    (f : ℕ) (buf more : List ℕ)
    → length buf ≤ f
    → frames (buf ++ more) ≡ continue_with more (frames buf)
frames-append_within zero buf more h = rw (frames-waits buf (empty_waits buf h))
frames-append_within (suc f) buf more h = elim (decoded buf) [
  | waits e ↦ rw (frames-waits buf e)
  | gives m n e ↦
      frames-gives (buf ++ more) (gives-append buf more e).0
      ∙ ap (λ b. after_message m (frames b)) (gives-append buf more e).1
      ∙ ap (after_message m)
          (frames-append_within f (drop n buf) more (omega (arith, drop_shorter buf e)))
      ∙ continue_with-after_message more m (frames (drop n buf))
      ∙ ap (continue_with more) (sym (frames-gives buf e))
  | fails x e ↦ rw (frames-fails buf e) (frames-fails (buf ++ more) (fails-append buf more e))
]

-- The messages of a byte stream do not depend on where it is cut: what follows is read from the
-- bytes that wait, and a broken stream stays broken.
pub frames-append : (buf more : List ℕ) → frames (buf ++ more) ≡ continue_with more (frames buf)
frames-append buf more = frames-append_within (length buf) buf more (omega arith)

-- Messages in a row, each encoded.
abbrev pub IsEncoded : List Message → List ℕ → Type 0
IsEncoded [] bytes = bytes ≡ []
IsEncoded (m ∷ ms) bytes =
    (front : List ℕ) × (back : List ℕ) × IsTyped m
    × IsCanonical m
    × (encode m ≡ ok front)
    × IsEncoded ms back
    × (bytes ≡ front ++ back)

-- A stream of encoded messages is read back whole, whatever follows it.
pub frames-encoded :
    (ms : List Message) (bytes rest : List ℕ)
    → IsEncoded ms bytes
    → frames (bytes ++ rest) ≡ (ms ++ (frames rest).0, (frames rest).1)
frames-encoded [] bytes rest e = rw e
frames-encoded (m ∷ ms) bytes rest (front, back, t, c, e, es, eq) =
    rw (eq, append_assoc)
      (frames-gives (front ++ (back ++ rest)) (try_decode_frame-encode m (back ++ rest) t c e)
        ∙ rw (drop-append_length front (back ++ rest), frames-encoded ms back rest es))

-- What is left over waits for more.
abbrev pub EndWaits : End → Type 0
EndWaits (waiting rest) = try_decode_frame rest ≡ ok none
EndWaits (broken e) = Unit

frames-EndWaits_within : (f : ℕ) (buf : List ℕ) → length buf ≤ f → EndWaits (frames buf).1
frames-EndWaits_within zero buf h = rw (frames-waits buf (empty_waits buf h)) (empty_waits buf h)
frames-EndWaits_within (suc f) buf h = elim (decoded buf) [
  | waits e ↦ rw (frames-waits buf e) e
  | gives m n e ↦
      rw (frames-gives buf e)
        (frames-EndWaits_within f (drop n buf) (omega (arith, drop_shorter buf e)))
  | fails x e ↦ rw (frames-fails buf e) tt
]

pub frames-EndWaits : (buf : List ℕ) → EndWaits (frames buf).1
frames-EndWaits buf = frames-EndWaits_within (length buf) buf (omega arith)
