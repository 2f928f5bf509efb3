-- ===== src/Native/Tests.antt =====
-- Runs of the recorder's functions.
use droidmirror.Base.{Bool}
use droidmirror.Native.Nals.{sps_pps}
use droidmirror.Native.Mp4.{
  Mp4Sample, Mp4Writer, Mp4Rec, new_rec, start, write_sample, push_sample, push, finish,
}
use droidmirror.Native.Mp4.Samples.{WriterLaws, recorded, bytes_of, finish-recorded}
use droidmirror.Base.{◌||◌, ◌++◌, true, false, arith, none, some, sym}
use droidmirror.Base.Result.{ok}
use droidmirror.Base.Text.{ascii}
use droidmirror.Base.TestFloat.{whole}
use droidmirror.Proto.Types.{h264}
use droidmirror.Client.State.{new}
use droidmirror.Client.State.{TouchAction}
use droidmirror.Server.Args.{parse_server_args, eq_ignore_case}
use droidmirror.Native.Window.{
  App, Desk, WindowEvent, resized, cursor_moved, mouse_input, left, touch_cmd, record_mp4, quit,
}
use droidmirror.Native.Window.Events.{
  view, in_toolbar, send_touch, mouse, window_event, window_events,
}
use droidmirror.Native.Window.Passive.{IsPassive, window_events-IsPassive}
use droidmirror.Native.Window.Touches.{tracks, is_down, window_events-tracks}
use droidmirror.Native.Launch.{LaunchArgs, remote_dir, launch_command}
use droidmirror.Native.Launch.Launched.{arguments, parse_server_args-launch_command}
use droidmirror.Native.Host.{Outside, HostSession, sent, Input, cmd, chunk, session}
use droidmirror.Native.Host.Recording.{RecLaws, Closes, session-Closes}
use droidmirror.Base.{ℕ, ◌≡◌, refl, List, [], ◌∷◌}
use droidmirror.Base.Bytes.{All}
use droidmirror.Native.Nals.{scan, start_codes, spans, nals, avcc_sample}
use droidmirror.Native.Spans.{IsWithin, spans-IsWithin}

abbrev two_units : List ℕ
two_units = 0 ∷ 0 ∷ 0 ∷ 1 ∷ 0x67 ∷ 1 ∷ 0 ∷ 0 ∷ 1 ∷ 0x65 ∷ 9 ∷ []

nals_two : nals two_units ≡ (0x67 ∷ 1 ∷ []) ∷ (0x65 ∷ 9 ∷ []) ∷ []
unfolding nals start_codes scan
nals_two = refl

sample_two : avcc_sample two_units ≡ 0 ∷ 0 ∷ 0 ∷ 2 ∷ 0x65 ∷ 9 ∷ []
unfolding avcc_sample nals start_codes scan
sample_two = refl

spans-IsWithin_example : All (IsWithin 11) (spans 11 (start_codes two_units))
spans-IsWithin_example = spans-IsWithin two_units

abbrev window : App ℕ
window = record {
  window = some (400, 880);
  cursor = (0, 0);
  buttons = 0;
  mods = record { shift = false; control = false; alt = false; super_key = false };
  video = (1080, 2160);
  no_control = false;
  toolbar_px = 80;
  latest = false;
  gif = false;
  mp4_on = false;
  status = [];
  exited = false;
}

abbrev desk : Desk
desk = record { clipboard = none; output_path = λ ext. ext; is_printable = λ text. true }

-- A drag.
abbrev drag : List (WindowEvent ℕ)
drag =
    resized 400 880
    ∷ cursor_moved 10 20
    ∷ mouse_input true left
    ∷ cursor_moved 11 22
    ∷ mouse_input false left
    ∷ []

drag_sent :
    (window_events whole desk drag window).1
    ≡ touch_cmd TouchAction.down 10 20 400 800
      ∷ touch_cmd TouchAction.move 11 22 400 800
      ∷ touch_cmd TouchAction.up 11 22 400 800
      ∷ []
unfolding window_events window_event mouse in_toolbar send_touch view
drag_sent = refl

window_events-tracks_example :
    ((window_events whole desk drag window).0.no_control ≡ false)
    × (tracks (window_events whole desk drag window).1 (is_down whole desk window)
        ≡ some (is_down whole desk (window_events whole desk drag window).0))
window_events-tracks_example = window_events-tracks whole desk drag window refl

abbrev watched : App ℕ
watched = record window { no_control = true }

window_events-IsPassive_example :
    ((window_events whole desk drag watched).0.no_control ≡ true)
    × All IsPassive (window_events whole desk drag watched).1
window_events-IsPassive_example = window_events-IsPassive whole desk drag watched refl

abbrev launch_args : LaunchArgs
launch_args = record { bitrate = 4000000; max_fps = 30; max_size = 1280; codec = ascii "HEVC" }

parse_server_args-launch_command_example :
    parse_server_args (arguments (launch_command launch_args)) ≡ record {
      bitrate = 4000000;
      max_fps = 30;
      max_size = 1280;
      h265 =
          eq_ignore_case (ascii "HEVC") (ascii "h265")
          || eq_ignore_case (ascii "HEVC") (ascii "hevc");
      lib = some (remote_dir ++ ascii "/libdroidmirror_server.so");
    }
parse_server_args-launch_command_example =
    parse_server_args-launch_command launch_args (omega arith) (omega arith) (omega arith)

-- A recorder that is its size, and a decoder that takes everything.
abbrev studio : Outside (ℕ × ℕ) ℕ
studio = record {
  start = λ width height csd s. (ok (width, height), s);
  push = λ pts_us keyframe nal r. r;
  finish = λ r s. (ok (ascii "/tmp/a.mp4"), s);
  try_frame = λ m s. s;
  try_job = λ job s. (sent, s);
  send_job = λ job s. (true, s);
  write_stream = λ bytes s. ok s;
}

studio_starts :
    (width height : ℕ) (csd : List ℕ) (s s' : ℕ) (r : ℕ × ℕ)
    → studio.start width height csd s ≡ (ok r, s')
    → r ≡ (width, height)
studio_starts width height csd s s' r e = let same : (width, height) ≡ r = cc in sym same

abbrev studio_laws : RecLaws studio
studio_laws = record {
  size = λ r. r;
  starts = studio_starts;
  pushes = λ pts_us keyframe nal r. refl;
}

abbrev mirroring : HostSession (ℕ × ℕ) ℕ
mirroring = record {
  client = new;
  video_cfg = some (record { codec = h264; csd = []; width = 640; height = 480 });
  mp4 = none;
  mp4_on = false;
  dump_nals = false;
  outside = 0;
}

abbrev inputs : List (Input whole studio)
inputs = cmd (record_mp4 true) ∷ chunk (1 ∷ []) ∷ cmd quit ∷ []

session-Closes_example : Closes whole studio studio_laws (session whole studio inputs mirroring)
session-Closes_example = session-Closes whole studio studio_laws inputs mirroring tt

-- A writer in memory.
abbrev writer : Mp4Writer (List Mp4Sample)
writer = record {
  write_start = λ width height sps pps. ok [];
  write_sample = λ s w. ok (w ++ (s ∷ []));
  write_end = λ w. ok w;
}

writer_started : (w : List Mp4Sample) → writer.write_start 1 1 [] [] ≡ ok w → w ≡ []
writer_started w e = let same : [] ≡ w = cc in sym same

writer_appended :
    (s : Mp4Sample) (w w' : List Mp4Sample) → writer.write_sample s w ≡ ok w' → w' ≡ w ++ (s ∷ [])
writer_appended s w w' e = let same : w ++ (s ∷ []) ≡ w' = cc in sym same

writer_ended : (w w' : List Mp4Sample) → writer.write_end w ≡ ok w' → w' ≡ w
writer_ended w w' e = let same : w ≡ w' = cc in sym same

abbrev writer_laws : WriterLaws writer
writer_laws = record {
  in_file = λ w. w;
  started = λ width height sps pps w e. writer_started w e;
  appended = λ s w w' e. writer_appended s w w' e;
  ended = λ w w' e. writer_ended w w' e;
}

abbrev sets : List ℕ
sets = 0 ∷ 0 ∷ 1 ∷ 0x67 ∷ 1 ∷ 0 ∷ 0 ∷ 1 ∷ 0x68 ∷ 2 ∷ []

-- A frame before the first IDR, the IDR, and a frame behind it.
abbrev film : List (ℕ × Bool × List ℕ)
film =
    (0, false, 0 ∷ 0 ∷ 1 ∷ 0x41 ∷ 7 ∷ [])
    ∷ (1000, false, 0 ∷ 0 ∷ 1 ∷ 0x65 ∷ 8 ∷ [])
    ∷ (34000, false, 0 ∷ 0 ∷ 1 ∷ 0x41 ∷ 9 ∷ [])
    ∷ []

abbrev idr_sample : Mp4Sample
idr_sample = record {
  start_time = 1;
  duration = 33;
  is_sync = true;
  bytes = 0 ∷ 0 ∷ 0 ∷ 2 ∷ 0x65 ∷ 8 ∷ [];
}

abbrev last_bytes : List ℕ
last_bytes = 0 ∷ 0 ∷ 0 ∷ 2 ∷ 0x41 ∷ 9 ∷ []

abbrev filmed : Mp4Rec (List Mp4Sample)
filmed = record {
  writer = idr_sample ∷ [];
  samples = 1;
  wait_idr = false;
  pending = some (record { pts_us = 34000; keyframe = false; bytes = last_bytes });
}

abbrev film_saved : Mp4Rec (List Mp4Sample)
film_saved = record filmed {
  writer =
      idr_sample
      ∷ record { start_time = 34; duration = 33; is_sync = false; bytes = last_bytes }
      ∷ [];
  samples = 2;
  pending = none;
}

finish-recorded_example : bytes_of film_saved.writer ≡ recorded true film
unfolding start push push_sample write_sample finish sps_pps nals start_codes scan avcc_sample
finish-recorded_example =
    finish-recorded writer writer_laws 640 480 sets [] [] [] film (new_rec writer []) filmed
      film_saved refl refl refl
