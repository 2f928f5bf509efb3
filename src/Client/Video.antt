-- ===== src/Client/Video.antt =====
-- `request_keyframe_skip`: which video frames reach the host.
use droidmirror.Base.{ℕ, ◌≡◌, refl, Bool, List, [], ◌∷◌, ◌++◌, arith, if◌then◌else◌}
use droidmirror.Proto.Types.{Message, video_frame}
use droidmirror.Client.State.{Out, Client}
use droidmirror.Client.Receive.{apply_message}
use droidmirror.Client.Handle.{apply_all}

abbrev pub Video : Type 0
Video = ℕ × Bool × List ℕ

-- The video frames of a stream, and those among the events.
abbrev pub sent_video : List Message → List Video
sent_video [] = []
sent_video (video_frame pts_us keyframe nal ∷ ms) = (pts_us, keyframe, nal) ∷ sent_video ms
sent_video (m ∷ ms) = sent_video ms

abbrev pub shown_video : List Out → List Video
shown_video [] = []
shown_video (Out.frame pts_us keyframe nal ∷ out) = (pts_us, keyframe, nal) ∷ shown_video out
shown_video (o ∷ out) = shown_video out

-- From the first keyframe on.
abbrev pub from_keyframe : List Video → List Video
from_keyframe [] = []
from_keyframe ((pts_us, keyframe, nal) ∷ vs) =
    if keyframe then (pts_us, keyframe, nal) ∷ vs else from_keyframe vs

shown_video-append : (o o' : List Out) → shown_video (o ++ o') ≡ shown_video o ++ shown_video o'
shown_video-append [] o' = refl
shown_video-append (Out.frame p k n ∷ o) o' = rw (shown_video-append o o')
shown_video-append (Out.configure c s w h ∷ o) o' = shown_video-append o o'
shown_video-append (Out.device_name s ∷ o) o' = shown_video-append o o'
shown_video-append (Out.error s ∷ o) o' = shown_video-append o o'

abbrev expected : Bool → List Message → List Video
expected skip ms = if skip then from_keyframe (sent_video ms) else sent_video ms

video_step :
    (m : Message) (ms : List Message) (c : Client)
    → shown_video (apply_message m c).1 ++ expected (apply_message m c).0.skip_until_key ms
      ≡ expected c.skip_until_key (m ∷ ms)
unfolding apply_message
video_step (video_frame p k n) ms c = ground arith
video_step m ms c = refl

-- The host sees every video frame, in order, but for those before the next keyframe where it asked
-- to skip to one.
pub shown_video-apply_all :
    (ms : List Message) (c : Client)
    → shown_video (apply_all ms c).1
      ≡ (if c.skip_until_key then from_keyframe (sent_video ms) else sent_video ms)
shown_video-apply_all [] c = ground arith
shown_video-apply_all (m ∷ ms) c =
    rw (shown_video-append, shown_video-apply_all ms (apply_message m c).0) (video_step m ms c)
