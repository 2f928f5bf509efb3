-- ===== src/Native/Launch.antt =====
-- crates/native/src/main.rs: `ArgsSnapshot`, `launch_command` and `open_retry`.
pub mod Launched
use droidmirror.Base.{
  ℕ, zero, suc, ◌+◌, ◌%◌, Bool, true, false, ◌||◌, Option, none, some, List, [], ◌∷◌, ◌++◌, ◌==◌,
  if◌then◌else◌,
}
use droidmirror.Base.Result.{Result, ok, err}
use droidmirror.Base.Text.{ascii, decimal}
use droidmirror.Server.Args.{eq_ignore_case}

-- The fields of `ArgsSnapshot` that reach the phone.
pub record LaunchArgs : Type 0 where
  pub bitrate : ℕ
  pub max_fps : ℕ
  pub max_size : ℕ
  pub codec : List ℕ

abbrev pub remote_dir : List ℕ
remote_dir = ascii "/data/local/tmp/droidmirror"

abbrev pub wants_h265 : LaunchArgs → Bool
wants_h265 args =
    eq_ignore_case args.codec (ascii "h265") || eq_ignore_case args.codec (ascii "hevc")

unfoldable pub codec_name : LaunchArgs → List ℕ
codec_name args = if wants_h265 args then ascii "h265" else ascii "h264"

unfoldable pub launch_command : LaunchArgs → List ℕ
launch_command args =
    ascii "CLASSPATH="
    ++ (remote_dir
        ++ (ascii "/droidmirror.dex exec app_process / com.droidmirror.Server --bitrate "
            ++ (decimal args.bitrate
                ++ (ascii " --max-fps "
                    ++ (decimal args.max_fps
                        ++ (ascii " --max-size "
                            ++ (decimal args.max_size
                                ++ (ascii " --codec "
                                    ++ (codec_name args
                                        ++ (ascii " --lib="
                                            ++ (remote_dir
                                                ++ ascii "/libdroidmirror_server.so")))))))))))

-- `open_retry`: at most so many tries, with a wait after each that fails.
module _ {S E A : Type 0} (open_once : S → Result E A × S) (sleep_250 : S → S)
    (did_not_open : E) where
  abbrev pub tried : (again : Option E → S → Result E A × S) → Result E A × S → Result E A × S
  tried again (ok a, s) = (ok a, s)
  tried again (err e, s) = again (some e) (sleep_250 s)

  abbrev pub or_last : Option E → Result E A
  or_last none = err did_not_open
  or_last (some e) = err e

  unfoldable pub retry_from : (attempts : ℕ) → Option E → S → Result E A × S
  retry_from zero last s = (or_last last, s)
  retry_from (suc n) last s = tried (retry_from n) (open_once s)

  unfoldable pub open_retry : (attempts : ℕ) → S → Result E A × S
  open_retry attempts s = retry_from attempts none s
