-- ===== src/Mirror/Tests.antt =====
-- A session of a phone in memory, and its client.
use droidmirror.Base.{ℕ, false, ◌++◌, List, [], ◌∷◌}
use droidmirror.Base.Int.{pos}
use droidmirror.Base.TestFloat.{whole}
use droidmirror.Base.Text.{ascii}
use droidmirror.Proto.Types.{Handshake, version, h264}
use droidmirror.Server.Args.{default_config}
use droidmirror.Server.Session.{Flow, Session}
use droidmirror.Server.Session.Opening.{Opened, serve_session}
use droidmirror.Mirror.Fake.{Wire, Buffers, fake}

-- Codec data, then a keyframe.
abbrev buffers : Buffers
buffers = (2, 0 ∷ 0 ∷ 0 ∷ 1 ∷ 103 ∷ []) ∷ (1, 0 ∷ 0 ∷ 1 ∷ 101 ∷ 9 ∷ []) ∷ []

abbrev wire : Wire
wire = record { inbox = []; sent = [] }

abbrev hello : Handshake
hello = record {
  version_byte = version;
  codec = h264;
  width = 1080;
  height = 1920;
  csd = 0 ∷ 0 ∷ 0 ∷ 1 ∷ 103 ∷ [];
  device_name = ascii "Android";
  caps = 1;
}

abbrev sent : List ℕ
sent =
    ascii "DMIR"
    ++ (1
        ∷ 1
        ∷ 56
        ∷ 4
        ∷ 128
        ∷ 7
        ∷ 5
        ∷ 0
        ∷ 0
        ∷ 0
        ∷ 0
        ∷ 1
        ∷ 103
        ∷ 7
        ∷ 0
        ∷ (ascii "Android"
            ++ (1 ∷ 19 ∷ 0 ∷ 0 ∷ 0 ∷ 1 ∷ 64 ∷ 156 ∷ 0 ∷ 0 ∷ 0 ∷ 0 ∷ 0 ∷ 0 ∷ 1 ∷ 5 ∷ 0 ∷ 0 ∷ 0 ∷ 0
                ∷ 0 ∷ 1 ∷ 101 ∷ 9 ∷ [])))

abbrev session : Opened (Handshake × Flow (Session Wire Buffers (Unit {0})))
session = serve_session whole fake 1000 default_config 1 wire buffers

-- What is left when the loop has ended, with `hello` and the keyframe sent.
abbrev left : Session Wire Buffers (Unit {0})
left = record {
  net = record { inbox = []; sent = sent };
  java = [];
  capture = record {
    width = pos 1080;
    height = pos 1920;
    codec_kind = h264;
    csd = 0 ∷ 0 ∷ 0 ∷ 1 ∷ 103 ∷ [];
    settings = record { paused = false; bitrate = 8_000_000; max_fps = 60; params_dirty = false };
  };
  inject = tt;
  pending = [];
  rotation = pos 0;
  seen_w = pos 1080;
  seen_h = pos 1920;
  last_rot = 0;
}
