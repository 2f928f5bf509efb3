-- ===== src/Native/Mp4.antt =====
-- crates/native/src/capture.rs: `Mp4Rec` with `start`, `push`, `finish` and `write_sample`. The
-- writer of the MP4 library is an argument, over its state `W`. What a recorder holds after an error
-- is not followed.
pub mod Samples
use droidmirror.Base.{
  ℕ, ◌+◌, ◌-◌, ◌/◌, Bool, true, false, ◌&&◌, ◌||◌, not, Option, none, some, List, [], ◌∷◌, ◌==◌,
  min, max, if◌then◌else◌,
}
use droidmirror.Base.Result.{Result, ok, err, ◌>>=◌}
use droidmirror.Proto.AnnexB.{is_empty}
use droidmirror.Native.Nals.{nals, nal_type, avcc_sample, sps_pps}

pub record PendingSample : Type 0 where
  pub pts_us : ℕ
  pub keyframe : Bool
  pub bytes : List ℕ

-- `Mp4Sample`, whose rendering offset is always 0.
pub record Mp4Sample : Type 0 where
  pub start_time : ℕ
  pub duration : ℕ
  pub is_sync : Bool
  pub bytes : List ℕ

pub record Mp4Rec (W : Type 0) : Type 0 where
  pub writer : W
  pub samples : ℕ
  pub wait_idr : Bool
  pub pending : Option PendingSample

-- The MP4 library's writer.
pub record Mp4Writer (W : Type 0) : Type 0 where
  -- A file with a track of this size and these parameter sets.
  pub write_start : (width height : ℕ) (sps pps : List ℕ) → Result (List ℕ) W
  pub write_sample : Mp4Sample → W → Result (List ℕ) W
  pub write_end : W → Result (List ℕ) W

abbrev pub clamp_duration : ℕ → ℕ
clamp_duration ms = min (max ms 1) 10000

-- Whether a NAL of the data is of type 5.
abbrev pub any_idr : List (List ℕ) → Bool
any_idr [] = false
any_idr (nal ∷ rest) = nal_type nal == 5 || any_idr rest

module _ {W : Type 0} (mp4 : Mp4Writer W) where
  abbrev pub new_rec : W → Mp4Rec W
  new_rec w = record { writer = w; samples = 0; wait_idr = true; pending = none }

  abbrev pub with_sets :
      (width height : ℕ) (no_sets no_size : List ℕ)
      → Option (List ℕ × List ℕ)
      → Result (List ℕ) (Mp4Rec W)
  with_sets width height no_sets no_size none = err no_sets
  with_sets width height no_sets no_size (some (sps, pps)) =
      if width == 0 || height == 0
      then err no_size
      else (mp4.write_start width height sps pps >>= λ w. ok (new_rec w))

  -- With the texts of its two errors.
  unfoldable pub start :
      (width height : ℕ) (csd no_sets no_size : List ℕ) → Result (List ℕ) (Mp4Rec W)
  start width height csd no_sets no_size = with_sets width height no_sets no_size (sps_pps csd)

  unfoldable pub write_sample : (dur_ms : ℕ) → PendingSample → Mp4Rec W → Result (List ℕ) (Mp4Rec W)
  write_sample dur_ms p rec =
      mp4.write_sample
        (record {
          start_time = p.pts_us / 1000;
          duration = clamp_duration dur_ms;
          is_sync = p.keyframe;
          bytes = p.bytes;
        })
        rec.writer
      >>= λ w. ok (record rec { writer = w; samples = rec.samples + 1 })

  -- The sample that waits is written, `dur_ms` of its time being known now.
  abbrev pub flush : (dur_ms : ℕ → ℕ) → Option PendingSample → Mp4Rec W → Result (List ℕ) (Mp4Rec W)
  flush dur_ms none rec = ok rec
  flush dur_ms (some prev) rec =
      write_sample (dur_ms prev.pts_us) prev (record rec { pending = none })

  unfoldable pub push_sample : PendingSample → Mp4Rec W → Result (List ℕ) (Mp4Rec W)
  push_sample p rec =
      flush (λ before. (p.pts_us - before) / 1000) rec.pending (record rec { wait_idr = false })
      >>= λ r. ok (record r { pending = some p })

  unfoldable pub push :
      (pts_us : ℕ) (keyframe : Bool) (nal : List ℕ) → Mp4Rec W → Result (List ℕ) (Mp4Rec W)
  push pts_us keyframe nal rec =
      let idr = keyframe || any_idr (nals nal) in
      if rec.wait_idr && not idr
      then ok rec
      else if is_empty (avcc_sample nal)
      then ok rec
      else push_sample (record { pts_us = pts_us; keyframe = idr; bytes = avcc_sample nal }) rec

  -- The last sample gets a 30th of a second; a file with no sample is removed.
  unfoldable pub finish : (no_frames : List ℕ) → Mp4Rec W → Result (List ℕ) (Mp4Rec W)
  finish no_frames rec = flush (λ before. 33) rec.pending rec >>= λ r.
      mp4.write_end r.writer >>= λ w.
      if r.samples == 0 then err no_frames else ok (record r { writer = w; pending = none })
