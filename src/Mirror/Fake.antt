-- ===== src/Mirror/Fake.antt =====
-- A phone in memory: a socket that takes what is written, a codec with a list of buffers, and a
-- screen that does not turn.
use droidmirror.Base.{
  ℕ, suc, ◌%◌, ◌^◌, ◌<◌, ◌≤◌, ◌≡◌, refl, sym, ap, subst, ◌∙◌, arith, true, false, Option, none,
  some, List, [], ◌∷◌, ◌++◌, length, take, map,
}
use droidmirror.Base.Result.{Result, ok, err}
use droidmirror.Base.Int.{ℤ, pos, negsuc}
use droidmirror.Base.Bytes.{All, IsByte, take-length}
use droidmirror.Server.Control.{Inject}
use droidmirror.Server.Net.{ErrorKind, Socket, SocketLaws}
use droidmirror.Proto.IsTyped.{IsText}
use droidmirror.Server.Capture.{DisplayInfo, Media, MediaLaws}
use droidmirror.Server.Session.{Phone}
use droidmirror.Server.Session.Rounds.{PhoneLaws}

pub record Wire : Type 0 where
  pub inbox : List ℕ
  pub sent : List ℕ

abbrev pub wire : Socket Wire
wire = record {
  write = λ bs w. (ok (length bs), record w { sent = w.sent ++ bs });
  read = λ room w. (ok w.inbox, record w { inbox = [] });
  poll = λ timeout_ms w.
      (ok (record { count = length w.inbox; pollin = true; pollhup = false; pollerr = false }), w);
  sleep_ms = λ ms w. w;
}

pub written :
    (b : ℕ) (bs : List ℕ) (w w' : Wire) (n : ℕ)
    → wire.write (b ∷ bs) w ≡ (ok n, w')
    → (0 < n) × (n ≤ length (b ∷ bs)) × (w'.sent ≡ w.sent ++ take n (b ∷ bs))
written b bs w w' n e =
    let count : suc (length bs) ≡ n = cc in
    let same : w.sent ++ (b ∷ bs) ≡ w'.sent = ap (λ (p : Result ErrorKind ℕ × Wire). p.1.sent) e in
    (
      omega (arith, count),
      omega (arith, count),
      sym same
          ∙ ap (λ l. w.sent ++ l) (sym (take-length (b ∷ bs)))
          ∙ ap (λ k. w.sent ++ take k (b ∷ bs)) count,
    )

pub never_fails :
    (bs : List ℕ) (w w' : Wire) (k : ErrorKind) → wire.write bs w ≡ (err k, w') → w'.sent ≡ w.sent
never_fails bs w w' k e = cc

abbrev pub wire_laws : SocketLaws wire
wire_laws = record {
  sent = λ w. w.sent;
  wrote = written;
  failed = never_fails;
  reads = λ room w. refl;
  polls = λ timeout_ms w. refl;
  sleeps = λ ms w. refl;
}

-- The codec's buffers: their flags and bytes.
abbrev pub Buffers : Type 0
Buffers = List (ℕ × List ℕ)

abbrev pub front_bytes : Buffers → List ℕ
front_bytes [] = []
front_bytes ((flags, bytes) ∷ rest) = map (λ b. b % 256) bytes

abbrev pub front_flags : Buffers → ℕ
front_flags [] = 0
front_flags ((flags, bytes) ∷ rest) = flags

abbrev pub without_front : Buffers → Buffers
without_front [] = []
without_front (b ∷ rest) = rest

abbrev pub index_of_front : Buffers → ℤ
index_of_front [] = negsuc 0
index_of_front (b ∷ rest) = pos 0

abbrev pub codec : Media Buffers
codec = record {
  create = λ hevc width height bitrate frame_rate j. (ok tt, j);
  release = λ j. j;
  dequeue_output_buffer = λ timeout_us j. (some (some (index_of_front j)), j);
  flags = λ j. some (front_flags j);
  presentation_time_us = λ j. some (pos 40000);
  offset = λ j. some (pos 0);
  size = λ j. some (pos (length (front_bytes j)));
  copy_output = λ index offset size j. (some (front_bytes j), j);
  release_output_buffer = λ index j. without_front j;
  get_output_format = λ j. (err [], j);
  format_bytes = λ key j. (none, j);
  set_parameters = λ bitrate max_fps j. j;
  display_info = λ j. (err [], j);
}

low_bytes : (bs : List ℕ) → All IsByte (map (λ b. b % 256) bs)
low_bytes [] = tt
low_bytes (b ∷ bs) = (omega arith, low_bytes bs)

front_bytes-All : (j : Buffers) → All IsByte (front_bytes j)
front_bytes-All [] = tt
front_bytes-All ((flags, bytes) ∷ rest) = low_bytes bytes

pub copied_bytes :
    (j : Buffers) (bytes : List ℕ) → some (front_bytes j) ≡ some bytes → All IsByte bytes
copied_bytes j bytes e =
    let same : front_bytes j ≡ bytes = cc in subst (All IsByte) same (front_bytes-All j)

pub at_40_ms : (n : ℕ) → some (pos 40000) ≡ some (pos n) → n < 2 ^ 63
at_40_ms n e = let same : ◌≡◌ {A = ℕ} 40000 n = cc in omega (arith, same)

pub no_format : (bytes : List ℕ) → ◌≡◌ {A = Option (List ℕ)} none (some bytes) → All IsByte bytes
no_format bytes e = cc

pub no_display :
    (info : DisplayInfo)
    → ◌≡◌ {A = Result (List ℕ) DisplayInfo} (err []) (ok info)
    → IsText info.name
no_display info e = cc

abbrev pub codec_laws : MediaLaws codec
codec_laws = record {
  copied = λ index offset size j bytes e. copied_bytes j bytes e;
  formatted = λ key j bytes e. no_format bytes e;
  time = λ j n e. at_40_ms n e;
  name = λ j info e. no_display info e;
}

abbrev pub nothing : Inject (Unit {0})
nothing = record {
  touch = λ action id x y pressure i. i;
  key = λ action keycode meta i. i;
  text = λ s i. i;
  scroll = λ x y h v i. i;
}

abbrev pub fake : Phone Wire Buffers (Unit {0})
fake = record {
  sock = wire;
  now_ns = λ w. (0, w);
  bind = λ name w. (ok tt, w);
  accept = λ w. (ok tt, record w { sent = [] });
  set_nonblock = λ w. w;
  media = codec;
  sdk = λ width height orig_w orig_h j. (err [], j);
  uinput = λ width height j. (ok tt, j);
  shell = tt;
  inject = nothing;
}

pub accepted_fresh : (w w' : Wire) → fake.accept w ≡ (ok tt, w') → w'.sent ≡ []
accepted_fresh w w' e = ap (λ (p : Result (List ℕ) (Unit {0}) × Wire). p.1.sent) (sym e)

abbrev pub fake_laws : PhoneLaws fake
fake_laws = record {
  sock_laws = wire_laws;
  media_laws = codec_laws;
  ticks = λ w. refl;
  accepts = λ w w' e. accepted_fresh w w' e;
}
