-- ===== src/Server/Session/Opening.antt =====
-- crates/server/src/android/run.rs: `serve_session` up to its loop, and the whole of it.
use Prim.Native.Nat.{bit_or}
use droidmirror.Base.{ℕ, none, some, List, [], if◌then◌else◌}
use droidmirror.Base.Result.{Result, ok, err}
use droidmirror.Base.Bytes.{i32_bits}
use droidmirror.Base.Text.{ascii}
use droidmirror.Base.Float.{Float}
use droidmirror.Proto.Types.{Handshake, version, cap_h265, ProtoError}
use droidmirror.Proto.Handshake.{encode_handshake}
use droidmirror.Server.Size.{fit_max_size}
use droidmirror.Server.Args.{ServerConfig}
use droidmirror.Server.Net.{Written, write_all}
use droidmirror.Server.Capture.{Capture, DisplayInfo, as_i32, start, wait_csd}
use droidmirror.Server.Session.{
  Flow, go, stop, starved, Session, Phone, ServeError, text, proto, net_error, as_u16,
  display_or_default, open_inject, rounds,
}

pub data Opened {ℓ} (X : Type ℓ) : Type ℓ where
  refused : ServeError → Opened X
  opened : X → Opened X
  unsent : Opened X

infixl 5 ◌>>=◌
abbrev pub ◌>>=◌ {ℓ κ} : {X : Type ℓ} {Y : Type κ} → Opened X → (X → Opened Y) → Opened Y
opened x >>= f = f x
refused e >>= f = refused e
unsent >>= f = unsent

-- `?` with the error's text.
abbrev pub or_text {ℓ κ} : {A : Type ℓ} {S : Type κ} → Result (List ℕ) A × S → Opened (A × S)
or_text (ok a, s) = opened (a, s)
or_text (err e, s) = refused (text e)

abbrev pub or_proto {ℓ} : {A : Type ℓ} → Result ProtoError A → Opened A
or_proto (ok a) = opened a
or_proto (err e) = refused (proto e)

abbrev pub or_net : {N : Type 0} → Written N → Opened N
or_net none = unsent
or_net (some (ok u, w)) = opened w
or_net (some (err e, w)) = refused (net_error e)

abbrev pub caps_of : ServerConfig → (inject_cap : ℕ) → ℕ
caps_of cfg cap_bits = bit_or (if cfg.h265 then cap_h265 else 0) cap_bits

-- The handshake of a capture.
abbrev pub greeting_of :
    Float → ServerConfig → DisplayInfo → Capture → (csd : List ℕ) → (cap_bits : ℕ) → Handshake
greeting_of float cfg info c csd cap_bits =
    let (w, h) = fit_max_size float (i32_bits info.width) (i32_bits info.height) cfg.max_size in
    record {
      version_byte = version;
      codec = c.codec_kind;
      width = as_u16 w;
      height = as_u16 h;
      csd = csd;
      device_name = info.name;
      caps = caps_of cfg cap_bits;
    }

module _ {N J I : Type 0} (float : Float) (phone : Phone N J I) (fuel : ℕ) where
  open phone use {sock, now_ns, media}

  -- The loop's first state.
  unfoldable pub first_state : DisplayInfo → Capture → I → J → N → Session N J I
  first_state info c i j w =
      let (now, w') = now_ns w in
      record {
        net = w';
        java = j;
        capture = c;
        inject = i;
        pending = [];
        rotation = info.rotation;
        seen_w = info.width;
        seen_h = info.height;
        last_rot = now;
      }

  unfoldable pub greet :
      ServerConfig
      → DisplayInfo
      → Capture
      → I
      → (cap_bits : ℕ) → N
      → J
      → Opened (Handshake × Session N J I)
  greet cfg info c i cap_bits w j =
      let (csd, (c1, j1)) = wait_csd media c j in
      let hello = greeting_of float cfg info c csd cap_bits in
      or_proto (encode_handshake hello) >>= λ raw.
      or_net (write_all sock fuel raw w) >>= λ w1. opened (hello, first_state info c1 i j1 w1)

  unfoldable pub with_capture :
      ServerConfig → DisplayInfo → N → Capture × J → Opened (Handshake × Session N J I)
  with_capture cfg info w (c, j) =
      let ((i, cap_bits), j1) =
        open_inject float phone fuel c.width c.height info.width info.height j in
      or_text (phone.bind (ascii "droidmirror") w) >>= λ (u, w1).
      or_text (phone.accept w1) >>= λ (v, w2).
      greet cfg info c i cap_bits (phone.set_nonblock w2) j1

  -- Up to the loop, with the handshake that has been sent.
  unfoldable pub open_session : ServerConfig → N → J → Opened (Handshake × Session N J I)
  open_session cfg w j =
      let (r, j1) = media.display_info j in
      let info = display_or_default r in
      let (cw, ch) = fit_max_size float (i32_bits info.width) (i32_bits info.height) cfg.max_size in
      or_text (start media (as_i32 cw) (as_i32 ch) cfg.bitrate cfg.max_fps cfg.h265 j1)
      >>= with_capture cfg info w

  -- The codec is released where the loop has ended.
  abbrev pub ended : Flow (Session N J I) → Flow (Session N J I)
  ended (go s) = go s
  ended (stop s) = stop (record s { java = media.release s.java })
  ended starved = starved

  -- `serve_session`, at most so many rounds.
  unfoldable pub serve_session :
      ServerConfig → (n : ℕ) → N → J → Opened (Handshake × Flow (Session N J I))
  serve_session cfg n w j =
      open_session cfg w j >>= λ (hello, s). opened (hello, ended (rounds float phone fuel cfg n s))
