-- ===== src/Server/Capture.antt =====
-- crates/server/src/android/capture.rs: `Capture` with `start`, `wait_csd`, `poll`,
-- `read_format_csd` and `apply_params`, and `DisplayInfo`. The calls of the Java framework are
-- arguments, over the state `J` of the virtual machine.
pub mod Whole
use Prim.Native.Nat.{bit_and}
use droidmirror.Base.{
  ℕ, zero, suc, ◌^◌, ◌%◌, ◌<◌, ◌≡◌, Bool, true, false, not, Option, none, some, List, [], ◌∷◌, ◌==◌,
  max, if◌then◌else◌,
}
use droidmirror.Base.Result.{Result, ok, err}
use droidmirror.Base.Int.{ℤ, pos, negsuc}
use droidmirror.Base.Bytes.{All, IsByte, i32_of_bits}
use droidmirror.Base.Text.{ascii}
use droidmirror.Proto.Types.{Codec, h264, h265}
use droidmirror.Proto.AnnexB.{is_empty, to_annex_b, csd_annex_b}
use droidmirror.Proto.IsTyped.{IsText}
use droidmirror.Server.Control.{Encoder}

abbrev pub flag_key_frame : ℕ
flag_key_frame = 1

abbrev pub flag_codec_config : ℕ
flag_codec_config = 2

pub record EncodedAu : Type 0 where
  pub pts_us : ℕ
  pub keyframe : Bool
  pub nal : List ℕ

-- The codec, its display and its buffer info are in the state of the virtual machine.
pub record Capture : Type 0 where
  pub width : ℤ
  pub height : ℤ
  pub codec_kind : Codec
  pub csd : List ℕ
  pub settings : Encoder

pub record DisplayInfo : Type 0 where
  pub width : ℤ
  pub height : ℤ
  pub rotation : ℤ
  pub name : List ℕ

-- The framework's calls; a value that cannot be read is `none`.
pub record Media (J : Type 0) : Type 0 where
  -- The encoder from `createEncoderByType` to `start`, with its virtual display.
  pub create :
      (hevc : Bool) (width height bitrate frame_rate : ℤ) → J → Result (List ℕ) (Unit {0}) × J
  -- `stop`, `release` and `destroyDisplay`.
  pub release : J → J
  -- `none` where the call has thrown, `some none` where its result is not an integer.
  pub dequeue_output_buffer : (timeout_us : ℕ) → J → Option (Option ℤ) × J
  -- The fields of the buffer info; the flags by their bits.
  pub flags : J → Option ℕ
  pub presentation_time_us : J → Option ℤ
  pub offset : J → Option ℤ
  pub size : J → Option ℤ
  pub copy_output : (index offset size : ℤ) → J → Option (List ℕ) × J
  pub release_output_buffer : ℤ → J → J
  pub get_output_format : J → Result (List ℕ) (Unit {0}) × J
  pub format_bytes : (key : List ℕ) → J → Option (List ℕ) × J
  -- `setParameters` with a bundle of the bit rate and the frame rate.
  pub set_parameters : (bitrate : ℤ) (max_fps : ℕ) → J → J
  pub display_info : J → Result (List ℕ) DisplayInfo × J

abbrev pub unwrap_or {ℓ} : {A : Type ℓ} → Option A → A → A
unwrap_or none d = d
unwrap_or (some a) d = a

abbrev pub is_positive : ℤ → Bool
is_positive (pos zero) = false
is_positive (pos (suc n)) = true
is_positive (negsuc n) = false

-- `z.max(0) as u64`.
abbrev pub max_zero : ℤ → ℕ
max_zero (pos n) = n
max_zero (negsuc n) = 0

-- `n as i32`.
abbrev pub as_i32 : ℕ → ℤ
as_i32 n = i32_of_bits (n % 2 ^ 32)

abbrev pub created :
    {J : Type 0} → Capture → Result (List ℕ) (Unit {0}) × J → Result (List ℕ) Capture × J
created c (ok u, j) = (ok c, j)
created c (err e, j) = (err e, j)

abbrev pub set_csd : List (List ℕ) → Capture → Capture
set_csd [] c = c
set_csd (part ∷ parts) c = record c { csd = csd_annex_b (part ∷ parts) }

abbrev pub csd_keys : List (List ℕ)
csd_keys = ascii "csd-0" ∷ ascii "csd-1" ∷ ascii "csd-2" ∷ []

-- What a buffer's bytes are: codec data, nothing, or an access unit.
abbrev pub take_bytes : (flags pts : ℕ) → List ℕ → Capture → Option EncodedAu × Capture
take_bytes flags pts bytes c =
    if not (bit_and flags flag_codec_config == 0)
    then (none, (if is_empty bytes then c else record c { csd = to_annex_b bytes }))
    else if is_empty bytes
    then (none, c)
    else (
      some record {
        pts_us = pts;
        keyframe = not (bit_and flags flag_key_frame == 0);
        nal = to_annex_b bytes;
      },
      c,
    )

module _ {J : Type 0} (media : Media J) where
  open media use {
    create, dequeue_output_buffer, flags, presentation_time_us, offset, size, copy_output,
    release_output_buffer, get_output_format, format_bytes, set_parameters,
  }

  unfoldable pub start :
      (width height : ℤ) (bitrate fps : ℕ) (hevc : Bool) → J → Result (List ℕ) Capture × J
  start width height bitrate fps hevc j =
      created
        record {
          width = width;
          height = height;
          codec_kind = if hevc then h265 else h264;
          csd = [];
          settings = record {
            paused = false;
            bitrate = bitrate;
            max_fps = fps;
            params_dirty = false;
          };
        }
        (create hevc width height (as_i32 bitrate) (as_i32 (max fps 1)) j)

  -- The keys of the format that have bytes, in order.
  abbrev pub format_parts : List (List ℕ) → J → List (List ℕ) × J
  format_parts [] j = ([], j)
  format_parts (key ∷ keys) j =
      let (bytes, j1) = format_bytes key j in
      let (parts, j2) = format_parts keys j1 in
      (elim bytes [ none ↦ parts | some part ↦ part ∷ parts ], j2)

  abbrev pub with_format : Capture → Result (List ℕ) (Unit {0}) × J → Capture × J
  with_format c (err e, j) = (c, j)
  with_format c (ok u, j) = let (parts, j1) = format_parts csd_keys j in (set_csd parts c, j1)

  -- The error is only logged.
  unfoldable pub read_format_csd : Capture → J → Capture × J
  read_format_csd c j = with_format c (get_output_format j)

  -- `copy_output`, where the size is positive.
  abbrev pub output_bytes : ℤ → J → List ℕ × J
  output_bytes index j =
      if is_positive (unwrap_or (size j) (pos 0))
      then (let (bytes, j1) =
            copy_output index (unwrap_or (offset j) (pos 0)) (unwrap_or (size j) (pos 0)) j in
          (unwrap_or bytes [], j1))
      else ([], j)

  -- The buffer at `index`.
  unfoldable pub take_output : ℤ → Capture → J → Option EncodedAu × (Capture × J)
  take_output index c j =
      let (bytes, j1) = output_bytes index j in
      let (au, c1) =
        take_bytes (unwrap_or (flags j) 0) (max_zero (unwrap_or (presentation_time_us j) (pos 0)))
          bytes c in
      (au, (c1, release_output_buffer index j1))

  -- -1 is `INFO_TRY_AGAIN_LATER`, -2 `INFO_OUTPUT_FORMAT_CHANGED`.
  abbrev pub dequeued : Capture → Option (Option ℤ) × J → Option EncodedAu × (Capture × J)
  dequeued c (none, j) = (none, (c, j))
  dequeued c (some none, j) = (none, (c, j))
  dequeued c (some (some (pos n)), j) = take_output (pos n) c j
  dequeued c (some (some (negsuc zero)), j) = (none, (c, j))
  dequeued c (some (some (negsuc (suc zero))), j) = (none, read_format_csd c j)
  dequeued c (some (some (negsuc (suc (suc n)))), j) = (none, (c, j))

  unfoldable pub poll : (timeout_us : ℕ) → Capture → J → Option EncodedAu × (Capture × J)
  poll timeout_us c j =
      if c.settings.paused then (none, (c, j)) else dequeued c (dequeue_output_buffer timeout_us j)

  -- The `for` loop of `wait_csd`: at most so many polls.
  unfoldable pub wait_loop : ℕ → Capture → J → Capture × J
  wait_loop zero c j = (c, j)
  wait_loop (suc n) c j =
      let (au, (c1, j1)) = poll 50000 c j in
      let rest = wait_loop n c1 j1 in if is_empty c1.csd then rest else (c1, j1)

  unfoldable pub wait_csd : Capture → J → List ℕ × (Capture × J)
  wait_csd c j = let (c1, j1) = wait_loop 40 c j in (c1.csd, (c1, j1))

  unfoldable pub apply_params : Capture → J → J
  apply_params c j = set_parameters (as_i32 c.settings.bitrate) c.settings.max_fps j

-- What the framework's values are by their Java types: bytes, a `long`, and a text for the name.
pub record MediaLaws {J : Type 0} (media : Media J) : Type 0 where
  pub copied :
      (index offset size : ℤ) (j : J) (bytes : List ℕ)
      → (media.copy_output index offset size j).0 ≡ some bytes
      → All IsByte bytes
  pub formatted :
      (key : List ℕ) (j : J) (bytes : List ℕ)
      → (media.format_bytes key j).0 ≡ some bytes
      → All IsByte bytes
  pub time : (j : J) (n : ℕ) → media.presentation_time_us j ≡ some (pos n) → n < 2 ^ 63
  pub name : (j : J) (info : DisplayInfo) → (media.display_info j).0 ≡ ok info → IsText info.name
