-- ===== src/Server/Session.antt =====
-- crates/server/src/android/run.rs: `serve_session` with its loop, `reconfigure`, and the choice of
-- an injector. The injectors, the clock and the listener are arguments.
pub mod Opening
pub mod Stream
pub mod Rounds
pub mod Start
use droidmirror.Base.{
  ℕ, zero, suc, ◌+◌, ◌-◌, ◌*◌, ◌%◌, ◌^◌, Bool, true, false, ◌||◌, not, Option, none, some, List, [],
  ltb, ◌==◌, ◌∷◌, if◌then◌else◌,
}
use droidmirror.Base.Result.{Result, ok, err}
use droidmirror.Base.Int.{ℤ, pos, negsuc}
use droidmirror.Base.Bytes.{i32_bits}
use droidmirror.Base.Text.{ascii}
use droidmirror.Base.Float.{Float}
use droidmirror.Proto.Types.{
  Codec, h264, h265, Handshake, Message, version, cap_h265, cap_uinput, ProtoError,
}
use droidmirror.Proto.Encode.{encode}
use droidmirror.Proto.Handshake.{encode_handshake}
use droidmirror.Server.Control.{
  Inject, Encoder, EncoderCtrl, capture_ctrl, push, Pushed, take_params_dirty,
}
use droidmirror.Server.Size.{fit_max_size}
use droidmirror.Server.Args.{ServerConfig}
use droidmirror.Server.Net.{NetError, Socket, Written, write_all, read_some, poll_in}
use droidmirror.Server.Capture.{
  EncodedAu, Capture, DisplayInfo, Media, as_i32, start, poll, wait_csd, apply_params,
}

-- Where a part of the loop leaves the session: it goes on, or the loop ends; `starved` when
-- `write_all` has run out of fuel.
pub data Flow {ℓ} (X : Type ℓ) : Type ℓ where
  go : X → Flow X
  stop : X → Flow X
  starved : Flow X

infixl 5 ◌>>=◌
abbrev pub ◌>>=◌ {ℓ} : {X : Type ℓ} → Flow X → (X → Flow X) → Flow X
go x >>= f = f x
stop x >>= f = stop x
starved >>= f = starved

-- The state of the loop: the network with the client's socket, the virtual machine with the codec,
-- the demultiplexer's buffer in `pending`, and the display as it was last seen.
pub record Session (N J I : Type 0) : Type 0 where
  pub net : N
  pub java : J
  pub capture : Capture
  pub inject : I
  pub pending : List ℕ
  pub rotation : ℤ
  pub seen_w : ℤ
  pub seen_h : ℤ
  pub last_rot : ℕ

-- `Instant::now()` in nanoseconds, the listening socket, and the injectors that `open` tries.
pub record Phone (N J I : Type 0) : Type 0 where
  pub sock : Socket N
  pub now_ns : N → ℕ × N
  pub bind : (name : List ℕ) → N → Result (List ℕ) (Unit {0}) × N
  pub accept : N → Result (List ℕ) (Unit {0}) × N
  pub set_nonblock : N → N
  pub media : Media J
  pub sdk : (width height orig_w orig_h : ℤ) → J → Result (List ℕ) I × J
  pub uinput : (width height : ℤ) → J → Result (List ℕ) I × J
  pub shell : I
  pub inject : Inject I

pub data ServeError : Type 0 where
  text : List ℕ → ServeError
  proto : ProtoError → ServeError
  net_error : NetError → ServeError

abbrev pub is_same : ℤ → ℤ → Bool
is_same (pos a) (pos b) = a == b
is_same (negsuc a) (negsuc b) = a == b
is_same _ _ = false

abbrev pub as_u16 : ℕ → ℕ
as_u16 n = n % 2 ^ 16

-- A frame that cannot be written ends the loop.
abbrev pub frame_written : {N J I : Type 0} → Session N J I → Written N → Flow (Session N J I)
frame_written s none = starved
frame_written s (some (ok u, w)) = go (record s { net = w })
frame_written s (some (err e, w)) = stop (record s { net = w })

-- The result of `reconfigure` is only logged: the loop goes on.
abbrev pub config_written : {N J I : Type 0} → Session N J I → Written N → Flow (Session N J I)
config_written s none = starved
config_written s (some (r, w)) = go (record s { net = w })

-- What is taken where the display cannot be queried.
unfoldable pub display_or_default : Result (List ℕ) DisplayInfo → DisplayInfo
display_or_default (ok info) = info
display_or_default (err e) = record {
  width = pos 1080;
  height = pos 1920;
  rotation = pos 0;
  name = ascii "Android";
}

module _ {N J I : Type 0} (float : Float) (phone : Phone N J I) (fuel : ℕ) where
  open phone use {sock, now_ns, media, inject}

  abbrev pub State : Type 0
  State = Session N J I

  -- What `demux.push` leaves; its error is only logged.
  abbrev pub pushed : State → Pushed float inject capture_ctrl → State
  pushed s (buf, (i, e), r) = record s {
    pending = buf;
    inject = i;
    capture = record s.capture { settings = e };
  }

  abbrev pub on_read : Result NetError (List ℕ) × N → State → Flow State
  on_read (ok [], w) s = stop (record s { net = w })
  on_read (ok (b ∷ bs), w) s =
      go
        (record (pushed s
          (push float inject capture_ctrl (b ∷ bs) s.pending (s.inject, s.capture.settings))) {
            net = w;
          })
  on_read (err e, w) s = stop (record s { net = w })

  abbrev pub on_poll : Result NetError Bool × N → State → Flow State
  on_poll (ok true, w) s = on_read (read_some sock (64 * 1024) w) s
  on_poll (ok false, w) s = go (record s { net = w })
  on_poll (err e, w) s = stop (record s { net = w })

  unfoldable pub read_input : State → Flow State
  read_input s = on_poll (poll_in sock 5 s.net) s

  unfoldable pub refresh_params : State → State
  refresh_params s =
      let (settings, dirty) = take_params_dirty s.capture.settings in
      let c : Capture = record s.capture { settings = settings } in
      record s { capture = c; java = if dirty then apply_params media c s.java else s.java }

  abbrev pub frame_encoded : State → Result ProtoError (List ℕ) → Flow State
  frame_encoded s (ok frame) = frame_written s (write_all sock fuel frame s.net)
  frame_encoded s (err e) = go s

  abbrev pub frame_polled : State → Option EncodedAu → Flow State
  frame_polled s none = go s
  frame_polled s (some au) =
      frame_encoded s (encode (Message.video_frame au.pts_us au.keyframe au.nal))

  unfoldable pub send_frame : State → Flow State
  send_frame s =
      let (au, (c, j)) = poll media 0 s.capture s.java in
      frame_polled (record s { capture = c; java = j }) au

  abbrev pub config_encoded : State → Result ProtoError (List ℕ) → Flow State
  config_encoded s (ok bytes) = config_written s (write_all sock fuel bytes s.net)
  config_encoded s (err e) = go s

  abbrev pub restarted :
      (cfg : ServerConfig) (w h : ℕ) → State → Result (List ℕ) Capture × J → Flow State
  restarted cfg w h s (err e, j) = go (record s { java = j })
  restarted cfg w h s (ok c, j) =
      let (csd, (c1, j1)) = wait_csd media c j in
      config_encoded (record s { capture = c1; java = j1 })
        (encode
          (Message.configure (if cfg.h265 then Codec.h265 else h264) (as_u16 w) (as_u16 h) csd))

  unfoldable pub reconfigure : (cfg : ServerConfig) (w h : ℕ) → State → Flow State
  reconfigure cfg w h s =
      restarted cfg w h s
        (start media (as_i32 w) (as_i32 h) cfg.bitrate cfg.max_fps cfg.h265 (media.release s.java))

  abbrev pub display_read : ServerConfig → State → Result (List ℕ) DisplayInfo × J → Flow State
  display_read cfg s (err e, j) = go (record s { java = j })
  display_read cfg s (ok info, j) =
      let s1 : State = record s { java = j } in
      let s2 : State = record s1 {
        rotation = info.rotation;
        seen_w = info.width;
        seen_h = info.height;
      } in
      let (w, h) = fit_max_size float (i32_bits info.width) (i32_bits info.height) cfg.max_size in
      if not (is_same info.rotation s.rotation)
        || (not (is_same info.width s.seen_w) || not (is_same info.height s.seen_h))
      then reconfigure cfg w h s2
      else go s1

  -- Every half second.
  unfoldable pub check_display : ServerConfig → State → Flow State
  check_display cfg s =
      let (now, w) = now_ns s.net in
      let (again, w1) = now_ns w in
      if ltb 500_000_000 (now - s.last_rot)
      then (let s1 : State = record s { net = w1; last_rot = again } in
          display_read cfg s1 (media.display_info s.java))
      else go (record s { net = w })

  -- One round of the loop.
  unfoldable pub turn : ServerConfig → State → Flow State
  turn cfg s = read_input s >>= λ s1. send_frame (refresh_params s1) >>= check_display cfg

  -- So many rounds, or fewer where the loop ends.
  unfoldable pub rounds : ServerConfig → ℕ → State → Flow State
  rounds cfg zero s = go s
  rounds cfg (suc n) s = turn cfg s >>= rounds cfg n

  -- The first injector that opens, with the capability that it adds.
  abbrev pub or_shell : Result (List ℕ) I × J → (I × ℕ) × J
  or_shell (ok i, j) = ((i, cap_uinput), j)
  or_shell (err e, j) = ((phone.shell, 0), j)

  abbrev pub or_uinput : (width height : ℤ) → Result (List ℕ) I × J → (I × ℕ) × J
  or_uinput width height (ok i, j) = ((i, 0), j)
  or_uinput width height (err e, j) = or_shell (phone.uinput width height j)

  unfoldable pub open_inject : (width height orig_w orig_h : ℤ) → J → (I × ℕ) × J
  open_inject width height orig_w orig_h j =
      or_uinput width height (phone.sdk width height orig_w orig_h j)
