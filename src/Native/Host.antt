-- ===== src/Native/Host.antt =====
-- crates/native/src/main.rs: `session`, between the mirror stream and the window: its two handlers,
-- `open_mp4`, `finish_mp4` and `enqueue`. The recorder (`Mp4Rec`), the channels and the stream are an
-- interface over the state `S`; files that are named by `--record` are left out.
pub mod Recording
use droidmirror.Base.{
  ℕ, zero, suc, Bool, true, false, ◌||◌, not, Option, none, some, List, [], ◌∷◌, ◌++◌, ◌==◌,
  if◌then◌else◌,
}
use droidmirror.Base.Result.{Result, ok, err}
use droidmirror.Base.Text.{ascii}
use droidmirror.Base.Float.{Float}
use droidmirror.Proto.Types.{Codec, h264, h265}
use droidmirror.Proto.AnnexB.{is_empty}
use droidmirror.Client.State.{Client, Out, request_keyframe_skip}
use droidmirror.Client.Receive.{on_bytes}
use droidmirror.Native.Window.{
  HostCmd, record_mp4, quit, encode_cmd, DecodedMsg, size_msg, status_msg,
}

pub record VideoCfg : Type 0 where
  pub codec : Codec
  pub csd : List ℕ
  pub width : ℕ
  pub height : ℕ

pub data NalJob : Type 0 where
  configure_job : (codec : Codec) (csd : List ℕ) → NalJob
  frame_job : (nal : List ℕ) (keyframe : Bool) → NalJob

-- What `try_send` finds.
pub data Slot : Type 0 where
  sent full gone : Slot

-- The recorder `R`, and the calls on the channels and the stream.
pub record Outside (R S : Type 0) : Type 0 where
  pub start : (width height : ℕ) (csd : List ℕ) → S → Result (List ℕ) R × S
  pub push : (pts_us : ℕ) (keyframe : Bool) (nal : List ℕ) → R → R
  -- The path of the file, or an error's text.
  pub finish : R → S → Result (List ℕ) (List ℕ) × S
  pub try_frame : DecodedMsg → S → S
  pub try_job : NalJob → S → Slot × S
  pub send_job : NalJob → S → Bool × S
  pub write_stream : List ℕ → S → Result (List ℕ) S

pub record HostSession (R S : Type 0) : Type 0 where
  pub client : Client
  pub video_cfg : Option VideoCfg
  pub mp4 : Option R
  pub mp4_on : Bool
  -- `args.dump_nals.is_some()`: nothing is decoded.
  pub dump_nals : Bool
  pub outside : S

abbrev pub is_h264 : Codec → Bool
is_h264 h264 = true
is_h264 h265 = false

abbrev pub same_codec : Codec → Codec → Bool
same_codec h264 h264 = true
same_codec h265 h265 = true
same_codec _ _ = false

module _ {R S : Type 0} (f : Float) (out : Outside R S) where
  open out use {start, push, finish, try_frame, try_job, send_job, write_stream}

  abbrev pub State : Type 0
  State = HostSession R S

  -- `mp4: ` and the text of the error, to the window.
  abbrev pub started : Result (List ℕ) R × S → Option R × S
  started (ok r, s) = (some r, s)
  started (err e, s) = (none, try_frame (status_msg (ascii "mp4: " ++ e)) s)

  unfoldable pub open_mp4 : VideoCfg → S → Option R × S
  open_mp4 cfg s =
      if is_h264 cfg.codec
      then started (start cfg.width cfg.height cfg.csd s)
      else (none, try_frame (status_msg (ascii "mp4: capture needs H.264")) s)

  abbrev pub finished : Result (List ℕ) (List ℕ) × S → S
  finished (ok path, s) = try_frame (status_msg path) s
  finished (err e, s) = try_frame (status_msg (ascii "mp4: " ++ e)) s

  abbrev pub finish_rec : Option R → S → S
  finish_rec none s = s
  finish_rec (some r) s = finished (finish r s)

  unfoldable pub finish_mp4 : State → State
  finish_mp4 h = record h { mp4 = none; outside = finish_rec h.mp4 h.outside }

  -- The recorder that has been opened, or the switch goes off.
  abbrev pub with_rec : State → Option R × S → State
  with_rec h (some r, s) = record h { mp4 = some r; outside = s }
  with_rec h (none, s) = record h { mp4 = none; mp4_on = false; outside = s }

  abbrev pub open_if : Option VideoCfg → State → State
  open_if none h = h
  open_if (some cfg) h = with_rec h (open_mp4 cfg h.outside)

  -- Where no recorder is open.
  abbrev pub open_unless : Option R → State → State
  open_unless none h = open_if h.video_cfg h
  open_unless (some r) h = h

  unfoldable pub set_recording : Bool → State → State
  set_recording true h = let h1 : State = record h { mp4_on = true } in open_unless h.mp4 h1
  set_recording false h = finish_mp4 (record h { mp4_on = false })

  -- `enqueue`: a job that matters waits for a slot.
  abbrev pub job_tried : NalJob → (important : Bool) → Slot × S → Bool × S
  job_tried job important (sent, s) = (true, s)
  job_tried job important (full, s) = if important then send_job job s else (false, s)
  job_tried job important (gone, s) = (false, s)

  unfoldable pub enqueue : NalJob → (important : Bool) → S → Bool × S
  enqueue job important s = job_tried job important (try_job job s)

  abbrev pub is_changed : Option VideoCfg → (codec : Codec) (width height : ℕ) → Bool
  is_changed none codec width height = false
  is_changed (some c) codec width height =
      not (c.width == width) || (not (c.height == height) || not (same_codec c.codec codec))

  abbrev pub open_if_on : Bool → State → State
  open_if_on true h = open_unless h.mp4 h
  open_if_on false h = h

  unfoldable pub on_configure : (codec : Codec) (csd : List ℕ) (width height : ℕ) → State → State
  on_configure codec csd width height h =
      let h1 = if is_changed h.video_cfg codec width height then finish_mp4 h else h in
      let cfg : VideoCfg = record { codec = codec; csd = csd; width = width; height = height } in
      let h2 : State = record h1 { video_cfg = some cfg } in
      let h3 = open_if_on h2.mp4_on h2 in
      record h3 {
        outside =
            (enqueue (configure_job codec csd) true
              (try_frame (size_msg width height) h3.outside)).1;
      }

  abbrev pub push_rec : (pts_us : ℕ) (keyframe : Bool) (nal : List ℕ) → Option R → Option R
  push_rec pts_us keyframe nal none = none
  push_rec pts_us keyframe nal (some r) = some (push pts_us keyframe nal r)

  -- A frame that the decoder has no room for: the client waits for a keyframe.
  unfoldable pub on_frame : (pts_us : ℕ) (keyframe : Bool) (nal : List ℕ) → State → State
  on_frame pts_us keyframe nal h =
      let (taken, s) =
        if h.dump_nals
        then (true, h.outside)
        else enqueue (frame_job nal keyframe) keyframe h.outside in
      record h {
        mp4 = push_rec pts_us keyframe nal h.mp4;
        client = if taken then h.client else request_keyframe_skip h.client;
        outside = s;
      }

  unfoldable pub on_out : Out → State → State
  on_out (Out.device_name name) h = h
  on_out (Out.configure codec csd width height) h = on_configure codec csd width height h
  on_out (Out.frame pts_us keyframe nal) h = on_frame pts_us keyframe nal h
  on_out (Out.error text) h = h

  unfoldable pub on_outs : List Out → State → State
  on_outs [] h = h
  on_outs (o ∷ os) h = on_outs os (on_out o h)

  -- A chunk of the stream that is not empty.
  unfoldable pub on_chunk : List ℕ → State → State
  on_chunk chunk h =
      let (c, outs) = on_bytes chunk h.client in on_outs outs (record h { client = c })

  -- The loop goes on, ends, or fails.
  pub data Turn : Type 0 where
    goes ends : State → Turn
    fails : List ℕ → Turn

  abbrev pub written : State → Result (List ℕ) S → Turn
  written h (ok s) = goes (record h { outside = s })
  written h (err e) = fails e

  abbrev pub send_cmd : List ℕ → State → Turn
  send_cmd [] h = goes h
  send_cmd (b ∷ bs) h = written h (write_stream (b ∷ bs) h.outside)

  unfoldable pub on_cmd : HostCmd f.F32 → State → Turn
  on_cmd quit h = ends h
  on_cmd (record_mp4 on) h = goes (set_recording on h)
  on_cmd other h = send_cmd (encode_cmd f h.client other) h

  -- What the loop waits for: a command, a chunk, or the end of either.
  pub data Input : Type 0 where
    cmd : HostCmd f.F32 → Input
    no_more_cmds : Input
    chunk : List ℕ → Input
    read_failed : List ℕ → Input

  unfoldable pub on_input : Input → State → Turn
  on_input (cmd c) h = on_cmd c h
  on_input no_more_cmds h = ends h
  on_input (chunk []) h = ends h
  on_input (chunk (b ∷ bs)) h = goes (on_chunk (b ∷ bs) h)
  on_input (read_failed e) h = fails e

  -- Behind the loop the recording is finished.
  abbrev pub turned : (again : State → Turn) → Turn → Turn
  turned again (goes h) = again h
  turned again (ends h) = ends (finish_mp4 h)
  turned again (fails e) = fails e

  unfoldable pub session : List Input → State → Turn
  session [] h = goes h
  session (i ∷ is) h = turned (session is) (on_input i h)
