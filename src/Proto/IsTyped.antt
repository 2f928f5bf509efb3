-- ===== src/Proto/IsTyped.antt =====
-- crates/proto/src/lib.rs: what the field types of `Message` and `Handshake` say of their values.
use droidmirror.Base.{ℕ, ◌^◌, ◌<◌, ◌≡◌, ◌≢◌, true, List, length}
use droidmirror.Base.Bytes.{All, IsByte, IsI32}
use droidmirror.Base.Utf8.{is_utf8}
use droidmirror.Proto.Types.{
  Handshake, Message, video_frame, configure, touch, key, text, scroll, set_encoding, key_syn,
  pause_resume, reserved, tag_video_frame, tag_configure, tag_touch, tag_key, tag_text, tag_scroll,
  tag_set_encoding, tag_key_syn, tag_pause,
}

abbrev pub IsText : List ℕ → Type 0
IsText s = All IsByte s × (is_utf8 s ≡ true)

abbrev pub IsTyped : Message → Type 0
IsTyped (video_frame pts_us keyframe nal) = (pts_us < 2 ^ 64) × All IsByte nal
IsTyped (configure codec width height csd) = (width < 2 ^ 16) × (height < 2 ^ 16) × All IsByte csd
IsTyped (touch action pointer_id x y pressure) =
    IsByte action × IsByte pointer_id × IsI32 x × IsI32 y × (pressure < 2 ^ 16)
IsTyped (key action keycode meta) = IsByte action × (keycode < 2 ^ 32) × (meta < 2 ^ 32)
IsTyped (text s) = IsText s
IsTyped (scroll x y h v) = IsI32 x × IsI32 y × IsI32 h × IsI32 v
IsTyped (set_encoding bitrate max_fps max_size) =
    (bitrate < 2 ^ 32) × (max_fps < 2 ^ 32) × (max_size < 2 ^ 16)
IsTyped (key_syn keycode action) = (keycode < 2 ^ 32) × IsByte action
IsTyped (pause_resume on) = Unit
IsTyped (reserved tag payload) = IsByte tag × All IsByte payload

-- A tag that `decode_payload` has no arm for.
abbrev pub IsUninterpreted : ℕ → Type 0
IsUninterpreted t =
    (t ≢ tag_video_frame)
    × (t ≢ tag_configure)
    × (t ≢ tag_touch)
    × (t ≢ tag_key)
    × (t ≢ tag_text)
    × (t ≢ tag_scroll)
    × (t ≢ tag_set_encoding)
    × (t ≢ tag_key_syn)
    × (t ≢ tag_pause)

-- `Reserved` carries an uninterpreted tag, and its payload's length fits the `u32` that it is cast to.
abbrev pub IsCanonical : Message → Type 0
IsCanonical (reserved tag payload) = IsUninterpreted tag × (length payload < 2 ^ 32)
IsCanonical _ = Unit

abbrev pub IsTypedHandshake : Handshake → Type 0
IsTypedHandshake h =
    IsByte h.version_byte
    × (h.width < 2 ^ 16)
    × (h.height < 2 ^ 16)
    × All IsByte h.csd
    × IsText h.device_name
    × IsByte h.caps
