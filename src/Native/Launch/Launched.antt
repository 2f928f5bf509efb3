-- ===== src/Native/Launch/Launched.antt =====
-- The command line that the host starts the server with, read by the server.
use droidmirror.Base.{
  ℕ, ◌≤◌, ◌≡◌, ◌≢◌, refl, ap, ◌∙◌, arith, true, false, ◌||◌, some, List, [], ◌∷◌, ◌++◌, ◌==◌, drop,
  Bool-cases, inl, inr,
}
use droidmirror.Base.Bytes.{All}
use droidmirror.Base.Text.{ascii, decimal}
use droidmirror.Adb.Daemon.Serials.{split}
use droidmirror.Server.Args.{
  ServerConfig, default_config, bytes_eq, eq_ignore_case, map_some, with_value, without_value,
  parse_args_from, parse_server_args,
}
use droidmirror.Server.Args.Printed.{IsDigit, decimal-All, parse_uint-decimal}
use droidmirror.Native.Launch.{LaunchArgs, remote_dir, wants_h265, codec_name, launch_command}

split-word :
    (sep : ℕ) (word rest : List ℕ)
    → All (λ c. c ≢ sep) word
    → split sep (word ++ (sep ∷ rest)) ≡ word ∷ split sep rest
unfolding split
split-word sep [] rest h = let here : (sep == sep) ≡ true = ground arith in rw here refl
split-word sep (c ∷ word) rest h =
    let other : (c == sep) ≡ false = ground (arith, h.0) in
    rw (other, split-word sep word rest h.1) refl

no_space : (l : List ℕ) → All IsDigit l → All (λ c. c ≢ b' ') l
no_space [] h = tt
no_space (c ∷ l) h = ((λ e. omega (arith, h.0.0, e)), no_space l h.1)

split-decimal :
    (n : ℕ) (rest : List ℕ) → split b' ' (decimal n ++ (b' ' ∷ rest)) ≡ decimal n ∷ split b' ' rest
split-decimal n rest = split-word b' ' (decimal n) rest (no_space (decimal n) (decimal-All n))

-- The words of a command line, without those up to the class: the program's arguments.
abbrev pub arguments : List ℕ → List (List ℕ)
arguments command = drop 5 (split b' ' command)

abbrev lib_path : List ℕ
lib_path = remote_dir ++ ascii "/libdroidmirror_server.so"

abbrev words : LaunchArgs → List (List ℕ)
words args =
    ascii "--bitrate"
    ∷ decimal args.bitrate
    ∷ ascii "--max-fps"
    ∷ decimal args.max_fps
    ∷ ascii "--max-size"
    ∷ decimal args.max_size
    ∷ ascii "--codec"
    ∷ codec_name args
    ∷ (ascii "--lib=" ++ lib_path)
    ∷ []

arguments-launch_command : (args : LaunchArgs) → arguments (launch_command args) ≡ words args
unfolding launch_command codec_name split
arguments-launch_command args = elim (Bool-cases (wants_h265 args)) [
  | inl t ↦
      rw (t, split-decimal args.bitrate, split-decimal args.max_fps, split-decimal args.max_size)
        refl
  | inr t ↦
      rw (t, split-decimal args.bitrate, split-decimal args.max_fps, split-decimal args.max_size)
        refl
]

config_of : LaunchArgs → ServerConfig
config_of args = record {
  bitrate = args.bitrate;
  max_fps = args.max_fps;
  max_size = args.max_size;
  h265 = wants_h265 args;
  lib = some lib_path;
}

one_argument :
    (a v : List ℕ) (rest : List (List ℕ)) (cfg cfg' : ServerConfig)
    → with_value a v cfg ≡ some cfg'
    → parse_args_from (a ∷ v ∷ rest) cfg ≡ parse_args_from rest cfg'
unfolding parse_args_from
one_argument a v rest cfg cfg' e = rw (e, parse_args_from) refl

with_bitrate :
    (n : ℕ) (cfg : ServerConfig)
    → n ≤ 4294967295
    → with_value (ascii "--bitrate") (decimal n) cfg ≡ some (record cfg { bitrate = n })
unfolding with_value bytes_eq
with_bitrate n cfg h =
    ap (map_some (λ k. record cfg { bitrate = k })) (parse_uint-decimal 4294967295 n h)

with_max_fps :
    (n : ℕ) (cfg : ServerConfig)
    → n ≤ 4294967295
    → with_value (ascii "--max-fps") (decimal n) cfg ≡ some (record cfg { max_fps = n })
unfolding with_value bytes_eq
with_max_fps n cfg h =
    ap (map_some (λ k. record cfg { max_fps = k })) (parse_uint-decimal 4294967295 n h)

with_max_size :
    (n : ℕ) (cfg : ServerConfig)
    → n ≤ 65535
    → with_value (ascii "--max-size") (decimal n) cfg ≡ some (record cfg { max_size = n })
unfolding with_value bytes_eq
with_max_size n cfg h =
    ap (map_some (λ k. record cfg { max_size = k })) (parse_uint-decimal 65535 n h)

with_codec :
    (args : LaunchArgs) (cfg : ServerConfig)
    → with_value (ascii "--codec") (codec_name args) cfg
      ≡ some (record cfg { h265 = wants_h265 args })
unfolding with_value bytes_eq codec_name eq_ignore_case
with_codec args cfg = elim (Bool-cases (wants_h265 args)) [ inl t ↦ rw t refl | inr t ↦ rw t refl ]

words-parsed :
    (args : LaunchArgs)
    → args.bitrate ≤ 4294967295
    → args.max_fps ≤ 4294967295
    → args.max_size ≤ 65535
    → parse_server_args (words args) ≡ config_of args
unfolding parse_server_args without_value config_of parse_args_from
words-parsed args hb hf hs =
    let c0 : ServerConfig = default_config in
    let c1 : ServerConfig = record c0 { bitrate = args.bitrate } in
    let c2 : ServerConfig = record c1 { max_fps = args.max_fps } in
    let c3 : ServerConfig = record c2 { max_size = args.max_size } in
    let w4 = (ascii "--lib=" ++ lib_path) ∷ [] in
    let w3 = ascii "--codec" ∷ codec_name args ∷ w4 in
    let w2 = ascii "--max-size" ∷ decimal args.max_size ∷ w3 in
    let w1 = ascii "--max-fps" ∷ decimal args.max_fps ∷ w2 in
    one_argument (ascii "--bitrate") (decimal args.bitrate) w1 c0 c1
      (with_bitrate args.bitrate c0 hb)
    ∙ one_argument (ascii "--max-fps") (decimal args.max_fps) w2 c1 c2
        (with_max_fps args.max_fps c1 hf)
    ∙ one_argument (ascii "--max-size") (decimal args.max_size) w3 c2 c3
        (with_max_size args.max_size c2 hs)
    ∙ one_argument (ascii "--codec") (codec_name args) w4 c3 (record c3 { h265 = wants_h265 args })
        (with_codec args c3)

-- The server's program, given the words of the host's command line, runs with the host's bit rate,
-- frame rate and size, which are in the ranges of their types, with H.265 exactly where the host
-- names it as `h265` or `hevc` in any case, and with the library that the host has pushed.
pub parse_server_args-launch_command :
    (args : LaunchArgs)
    → args.bitrate ≤ 4294967295
    → args.max_fps ≤ 4294967295
    → args.max_size ≤ 65535
    → parse_server_args (arguments (launch_command args)) ≡ record {
      bitrate = args.bitrate;
      max_fps = args.max_fps;
      max_size = args.max_size;
      h265 = eq_ignore_case args.codec (ascii "h265") || eq_ignore_case args.codec (ascii "hevc");
      lib = some (remote_dir ++ ascii "/libdroidmirror_server.so");
    }
unfolding config_of
parse_server_args-launch_command args hb hf hs =
    ap parse_server_args (arguments-launch_command args) ∙ words-parsed args hb hf hs
