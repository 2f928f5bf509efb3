-- ===== src/Client/Receive.antt =====
-- crates/client/src/lib.rs: `on_bytes`, `fail`, `apply_handshake`, `apply_message`.
use droidmirror.Base.{
  ℕ, zero, suc, true, false, ◌&&◌, not, List, [], ◌∷◌, ◌++◌, none, some, length, drop,
  if◌then◌else◌,
}
use droidmirror.Base.Result.{ok, err}
use droidmirror.Base.Text.{ascii, hex}
use droidmirror.Proto.Types.{
  Handshake, Message, video_frame, reserved, message_tag, ProtoError, error_text,
}
use droidmirror.Proto.Decode.{try_decode_frame}
use droidmirror.Proto.Handshake.{try_decode_handshake}
use droidmirror.Proto.AnnexB.{is_empty}
use droidmirror.Client.State.{Out, Client, Handled, ◌>>=◌}

unfoldable pub fail : ProtoError → Client → Handled
fail e c = (record c { fatal = true; buf = [] }, Out.error (error_text e) ∷ [])

unfoldable pub apply_handshake : Handshake → Client → Handled
apply_handshake h c = (
  record c {
    handshake = true;
    width = h.width;
    height = h.height;
    codec = some h.codec;
    csd = h.csd;
    device_name = h.device_name;
    caps = h.caps;
  },
  Out.device_name h.device_name ∷ Out.configure h.codec h.csd h.width h.height ∷ [],
)

unexpected : Message → List ℕ
unexpected m = ascii "unexpected client-bound message 0x" ++ hex 2 (message_tag m)

unfoldable pub apply_message : Message → Client → Handled
unfolding unexpected
apply_message (Message.configure codec width height csd) c = (
  record c {
    codec = some codec;
    width = width;
    height = height;
    csd = if is_empty csd then c.csd else csd;
  },
  Out.configure codec csd width height ∷ [],
)
apply_message (video_frame pts_us keyframe nal) c =
    if c.skip_until_key && not keyframe then (c, []) else (
      record c { skip_until_key = if keyframe then false else c.skip_until_key },
      Out.frame pts_us keyframe nal ∷ [],
    )
apply_message (reserved tag payload) c = (c, [])
apply_message other c = (c, Out.error (unexpected other) ∷ [])

-- The `loop` of `on_bytes`: a frame takes 5 bytes at least, so `length c.buf` rounds are enough.
unfoldable pub drain_frames : ℕ → Client → Handled
drain_frames zero c = (c, [])
drain_frames (suc fuel) c = elim (try_decode_frame c.buf) [
  | ok none ↦ (c, [])
  | ok (some (msg, n)) ↦ apply_message msg (record c { buf = drop n c.buf }) >>= drain_frames fuel
  | err e ↦ fail e c
]

abbrev pub drain_all : Client → Handled
drain_all c = drain_frames (length c.buf) c

-- What `on_bytes` does once the bytes are in the buffer.
unfoldable pub receive : Client → Handled
receive c = if c.handshake then drain_all c else elim (try_decode_handshake c.buf) [
  | ok none ↦ (c, [])
  | ok (some (h, n)) ↦ apply_handshake h (record c { buf = drop n c.buf }) >>= drain_all
  | err e ↦ fail e c
]

unfoldable pub on_bytes : List ℕ → Client → Handled
on_bytes bytes c = if c.fatal then (c, []) else receive (record c { buf = c.buf ++ bytes })
