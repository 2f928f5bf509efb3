-- ===== src/Client/Tests.antt =====
-- Runs of the client's theorems.
use droidmirror.Base.{◌+◌, ◌<◌, ◌≡◌, refl, arith, true, false, none, List, [], ◌∷◌, ◌++◌, length}
use droidmirror.Base.Result.{ok}
use droidmirror.Base.Bytes.{read_le}
use droidmirror.Base.TestFloat.{whole, whole-CastLaws}
use droidmirror.Proto.Types.{Message, max_frame_len}
use droidmirror.Proto.Decode.{try_decode_frame}
use droidmirror.Proto.Scale.{encode_pressure, encode_scroll}
use droidmirror.Proto.Frames.{frames}
use droidmirror.Proto.Tests.{
  home, home_bytes, phone, phone_bytes, phone_typed, phone_encoded, homes-IsEncoded,
}
use droidmirror.Client.State.{TouchAction, Client, new, ◌>>=◌}
use droidmirror.Client.Receive.{apply_handshake, drain_frames, receive, on_bytes}
use droidmirror.Client.Send.{map_to_device, touch, scroll}
use droidmirror.Client.Handle.{apply_all, handle}
use droidmirror.Client.Chunks.{on_bytes-append}
use droidmirror.Client.Session.{on_bytes-session, on_bytes-buf}
use droidmirror.Client.Video.{sent_video, shown_video, from_keyframe, shown_video-apply_all}
use droidmirror.Client.Commands.{InFrame, SentAt, map_to_device-InFrame, pointer-SentAt}

on_bytes-append_example :
    on_bytes (phone_bytes ++ home_bytes) new ≡ (on_bytes phone_bytes new >>= on_bytes home_bytes)
on_bytes-append_example = on_bytes-append phone_bytes home_bytes new

on_bytes-session_example :
    on_bytes (phone_bytes ++ ((home_bytes ++ home_bytes) ++ (9 ∷ []))) new ≡ (
      apply_handshake phone new
      >>= handle ((home ∷ home ∷ []) ++ (frames (9 ∷ [])).0, (frames (9 ∷ [])).1))
on_bytes-session_example =
    on_bytes-session phone (home ∷ home ∷ []) (home_bytes ++ home_bytes) (9 ∷ []) phone_typed refl
      phone_encoded homes-IsEncoded

abbrev greeted : Client
greeted = record new { handshake = true; width = 1080; height = 2400 }

on_bytes-buf_example :
    (try_decode_frame (on_bytes (9 ∷ []) greeted).0.buf ≡ ok none)
    × (length (on_bytes (9 ∷ []) greeted).0.buf < 4 + max_frame_len)
unfolding on_bytes receive drain_frames try_decode_frame read_le
on_bytes-buf_example = on_bytes-buf (9 ∷ []) greeted refl refl

abbrev video : List Message
video = Message.video_frame 1 false (1 ∷ []) ∷ Message.video_frame 2 true (2 ∷ []) ∷ []

shown_video-apply_all_example :
    shown_video (apply_all video (record greeted { skip_until_key = true })).1
    ≡ from_keyframe (sent_video video)
shown_video-apply_all_example =
    shown_video-apply_all video (record greeted { skip_until_key = true })

map_to_device-InFrame_example : InFrame 1080 2400 (map_to_device whole 10 20 1080 2400 1080 2400 0)
map_to_device-InFrame_example = map_to_device-InFrame whole 10 20 1080 2400 1080 2400 0

pointer-SentAt_example :
    SentAt
      (λ x y. Message.touch 0 1 x y (encode_pressure whole 1))
      (map_to_device whole 10 20 1080 2400 1080 2400 0)
      (touch whole greeted TouchAction.down 1 10 20 1080 2400 1)
    × SentAt
        (λ x y. Message.scroll x y (encode_scroll whole 0) (encode_scroll whole 2))
        (map_to_device whole 10 20 1080 2400 1080 2400 0)
        (scroll whole greeted 10 20 1080 2400 0 2)
pointer-SentAt_example =
    pointer-SentAt whole whole-CastLaws greeted TouchAction.down 1 10 20 1080 2400 1 0 2
      (omega arith) (omega arith) (omega arith)
