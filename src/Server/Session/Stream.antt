-- ===== src/Server/Session/Stream.antt =====
-- What a session sends: encoded pictures, one after the other.
use droidmirror.Base.{
  ℕ, zero, suc, ◌<◌, subst, ◌≡◌, refl, sym, ap, ◌∙◌, arith, ◌⊎◌, inl, inr, none, some, List, [],
  ◌∷◌, ◌++◌, length, take, append-nil, append_assoc,
}
use droidmirror.Base.Result.{ok, err}
use droidmirror.Base.Bytes.{All, All-append}
use droidmirror.Proto.Types.{Message, video_frame}
use droidmirror.Proto.IsTyped.{IsTyped, IsCanonical}
use droidmirror.Proto.Encode.{encode}
use droidmirror.Proto.Decode.{try_decode_frame}
use droidmirror.Proto.Stream.{try_decode_frame-take-encode}
use droidmirror.Proto.Frames.{IsEncoded, empty_waits}
use droidmirror.Server.Net.{Socket, SocketLaws, Written, write_all}
use droidmirror.Server.Net.Sends.{Sends, write_all-Sends}

-- The messages of a server: an access unit, or the settings of a codec.
abbrev pub IsPicture : Message → Type 0
IsPicture (video_frame pts_us keyframe nal) = Unit
IsPicture (Message.configure codec width height csd) = Unit
IsPicture _ = ⊥

abbrev pub IsConfigure : Message → Type 0
IsConfigure (Message.configure codec width height csd) = Unit
IsConfigure _ = ⊥

picture-IsCanonical : (m : Message) → IsPicture m → IsCanonical m
picture-IsCanonical (video_frame p k n) h = tt
picture-IsCanonical (Message.configure c w h' csd) h = tt
picture-IsCanonical (Message.reserved tag payload) h = elim h [ ]
picture-IsCanonical m h = tt

IsEncoded-append :
    (ms : List Message) (bytes more : List ℕ) (m : Message)
    → IsEncoded ms bytes
    → IsTyped m
    → IsCanonical m
    → encode m ≡ ok more
    → IsEncoded (ms ++ (m ∷ [])) (bytes ++ more)
IsEncoded-append [] bytes more m h t c e =
    (more, [], t, c, e, refl, ap (λ l. l ++ more) h ∙ sym (append-nil more))
IsEncoded-append (x ∷ ms) bytes more m (front, back, tx, cx, ex, h, eq) t c e = (
  front,
  back ++ more,
  tx,
  cx,
  ex,
  IsEncoded-append ms back more m h t c e,
  ap (λ l. l ++ more) eq ∙ append_assoc front back more,
)

-- After `prefix`, the messages `ms`, and bytes of which a reader can take no message yet.
pub record Served (prefix : List ℕ) (sent : List ℕ) : Type 0 where
  pub ms : List Message
  pub whole : List ℕ
  pub tail : List ℕ
  pub pictures : All IsPicture ms
  pub encoded : IsEncoded ms whole
  pub bytes : sent ≡ prefix ++ (whole ++ tail)
  pub cut : try_decode_frame tail ≡ ok none

-- After `prefix`, whole messages only.
abbrev pub IsWholly : (prefix : List ℕ) (sent : List ℕ) → Type 0
IsWholly prefix sent = (h : Served prefix sent) × (h.tail ≡ [])

-- A `Configure` that is written in part: after `base`, a front of it that is neither empty nor all.
abbrev pub IsPart : (base sent : List ℕ) → Type 0
IsPart base sent =
    (m : Message) × (bytes : List ℕ) × (k : ℕ) × IsConfigure m
    × (encode m ≡ ok bytes)
    × (0 < k)
    × (k < length bytes)
    × (sent ≡ base ++ take k bytes)

module _ {N : Type 0} (sock : Socket N) (laws : SocketLaws sock) where
  open laws use {sent}

  -- What is left of a stream of whole messages after a write: with an error, the end is a front of
  -- a message.
  abbrev pub Keeps : List ℕ → Written N → Type 0
  Keeps prefix none = Unit
  Keeps prefix (some (ok u, w)) = IsWholly prefix (sent w)
  Keeps prefix (some (err e, w)) = Served prefix (sent w)

  -- After a write whose error is dropped.
  abbrev pub KeepsOrPart : (prefix base : List ℕ) → Written N → Type 0
  KeepsOrPart prefix base none = Unit
  KeepsOrPart prefix base (some (r, w)) = IsWholly prefix (sent w) ⊎ IsPart base (sent w)

  -- Where the last message was whole.
  after_whole :
      (prefix more : List ℕ) (w : N) (h : Served prefix (sent w))
      → h.tail ≡ []
      → sent w ++ more ≡ prefix ++ (h.whole ++ more)
  after_whole prefix more w h e =
      ap (λ l. l ++ more) h.bytes
      ∙ ap (λ t. (prefix ++ (h.whole ++ t)) ++ more) e
      ∙ append_assoc prefix (h.whole ++ []) more
      ∙ ap (λ l. prefix ++ (l ++ more)) (append-nil h.whole)

  module _ (prefix : List ℕ) (m : Message) (bytes : List ℕ) (w : N) (hp : IsPicture m)
      (ht : IsTyped m) (e : encode m ≡ ok bytes) (h : Served prefix (sent w))
      (he : h.tail ≡ []) where
    Sends-Keeps : (r : Written N) → Sends sock laws bytes w r → Keeps prefix r
    Sends-Keeps none s = tt
    Sends-Keeps (some (ok u, w')) es = (
      record {
        ms = h.ms ++ (m ∷ []);
        whole = h.whole ++ bytes;
        tail = [];
        pictures = All-append IsPicture h.ms (m ∷ []) h.pictures (hp, tt);
        encoded = IsEncoded-append h.ms h.whole bytes m h.encoded ht (picture-IsCanonical m hp) e;
        bytes =
            es
            ∙ after_whole prefix bytes w h he
            ∙ ap (λ l. prefix ++ l) (sym (append-nil (h.whole ++ bytes)));
        cut = empty_waits [] (omega arith);
      },
      refl,
    )
    Sends-Keeps (some (err x, w')) (k, short, es, lasts) = record {
      ms = h.ms;
      whole = h.whole;
      pictures = h.pictures;
      encoded = h.encoded;
      tail = take k bytes;
      bytes = es ∙ after_whole prefix (take k bytes) w h he;
      cut = try_decode_frame-take-encode m k ht (picture-IsCanonical m hp) e short;
    }

    Sends-KeepsOrPart :
        (r : Written N) → IsConfigure m → Sends sock laws bytes w r → KeepsOrPart prefix (sent w) r
    Sends-KeepsOrPart none c s = tt
    Sends-KeepsOrPart (some (ok u, w')) c es = inl (Sends-Keeps (some (ok u, w')) es)
    Sends-KeepsOrPart (some (err x, w')) c (zero, short, es, lasts) =
        inl (subst (IsWholly prefix) (sym (es ∙ append-nil (sent w))) (h, he))
    Sends-KeepsOrPart (some (err x, w')) c (suc k, short, es, lasts) =
        inr (m, bytes, suc k, c, e, omega arith, short, es)

  -- A picture that is written keeps the stream, whole or cut short.
  pub write_all-Keeps :
      (fuel : ℕ) (prefix : List ℕ) (m : Message) (bytes : List ℕ) (w : N)
      → IsPicture m
      → IsTyped m
      → encode m ≡ ok bytes
      → IsWholly prefix (sent w)
      → Keeps prefix (write_all sock fuel bytes w)
  write_all-Keeps fuel prefix m bytes w hp ht e (h, he) =
      Sends-Keeps prefix m bytes w hp ht e h he _ (write_all-Sends sock laws fuel bytes w)

  pub write_all-KeepsOrPart :
      (fuel : ℕ) (prefix : List ℕ) (m : Message) (bytes : List ℕ) (w : N)
      → IsPicture m
      → IsConfigure m
      → IsTyped m
      → encode m ≡ ok bytes
      → IsWholly prefix (sent w)
      → KeepsOrPart prefix (sent w) (write_all sock fuel bytes w)
  write_all-KeepsOrPart fuel prefix m bytes w hp c ht e (h, he) =
      Sends-KeepsOrPart prefix m bytes w hp ht e h he _ c (write_all-Sends sock laws fuel bytes w)
