-- ===== src/Mirror/Shown.antt =====
-- A client that reads what `serve_session` sends.
use droidmirror.Base.{ℕ, ◌≡◌, false, Option, none, some, List, [], ◌∷◌, map}
use droidmirror.Base.Bytes.{All}
use droidmirror.Base.Float.{Float}
use droidmirror.Proto.Types.{Handshake, Message, video_frame}
use droidmirror.Client.State.{Client, Out, new}
use droidmirror.Client.Receive.{on_bytes}
use droidmirror.Server.Session.{Flow, go, stop, starved, Session}
use droidmirror.Server.Session.Stream.{IsPicture}

-- The event of a picture.
abbrev pub shown : Message → Out
shown (video_frame pts_us keyframe nal) = Out.frame pts_us keyframe nal
shown (Message.configure codec width height csd) = Out.configure codec csd width height
shown other = Out.error []

-- A client that shows what comes.
abbrev IsWatching : Client → Type 0
IsWatching c = (c.skip_until_key ≡ false) × (c.fatal ≡ false)

-- The state of a loop, at its end or still in it.
abbrev pub state_of {ℓ} : {X : Type ℓ} → Flow X → Option X
state_of (go s) = some s
state_of (stop s) = some s
state_of starved = none

-- What a new client makes of the bytes `sent` behind the handshake `hello`: its name and settings,
-- then pictures, and no error.
abbrev pub Shows : Handshake → (sent : List ℕ) → Type 0
Shows hello sent =
    (c : Client) × (ms : List Message) × All IsPicture ms
    × (on_bytes sent new ≡ (
      c,
      Out.device_name hello.device_name
          ∷ Out.configure hello.codec hello.csd hello.width hello.height
          ∷ map shown ms,
    ))
    × (c.fatal ≡ false)
