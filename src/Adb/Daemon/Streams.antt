-- ===== src/Adb/Daemon/Streams.antt =====
-- crates/transport/src/adb/server.rs: the streams of `AdbServer`, each one a socket of its own. The
-- sockets are an interface; so is what a read waits for, the channel that `pump` fills.
pub mod Pushed
use droidmirror.Base.{
  ℕ, ◌+◌, ◌%◌, ◌^◌, Bool, true, false, ◌&&◌, Option, none, some, List, [], ◌∷◌, ◌==◌, if◌then◌else◌,
}
use droidmirror.Base.Result.{Result, ok, err, ◌>>=◌}
use droidmirror.Proto.AnnexB.{is_empty}
use droidmirror.Adb.Protocol.{AdbError, closed}
use droidmirror.Adb.Packets.{AdbIo}
use droidmirror.Adb.Streams.{insert}
use droidmirror.Adb.Sync.{StreamOps}
use droidmirror.Adb.Daemon.Serials.{Bytes}
use droidmirror.Adb.Daemon.Facade.{open_service}

-- The network `N`, and the streams that are open.
pub record AdbServer (N T : Type 0) : Type 0 where
  pub net : N
  pub serial : Bytes
  pub next_id : ℕ
  pub streams : ℕ → Option T

-- `TcpStream::connect`, and the receiver of a stream's channel under a timeout: `none` when it has
-- elapsed, else a payload or the end.
pub record Network (N T : Type 0) : Type 0 where
  pub dial : N → Result AdbError (T × N)
  pub recv : (secs : ℕ) → T → Option (Option (List ℕ) × T)

-- `trim_end_matches('\0')`.
unfoldable pub trim_end_nul : List ℕ → List ℕ
trim_end_nul [] = []
trim_end_nul (b ∷ bs) =
    let rest = trim_end_nul bs in if b == 0 && is_empty rest then [] else b ∷ rest

module _ {N T : Type 0} (dev : AdbIo T) (network : Network N T) (trim lossy : Bytes → Bytes) where
  open network use {dial, recv}

  abbrev pub with_stream : AdbServer N T → (id : ℕ) → T → AdbServer N T
  with_stream s id t = record s { streams = insert id (some t) s.streams }

  unfoldable pub open_stream : (dest : List ℕ) → AdbServer N T → Result AdbError (ℕ × AdbServer N T)
  open_stream dest s = do
    (t, n) ← dial s.net
    t1 ← open_service dev trim lossy s.serial (trim_end_nul dest) t
    ok (
      s.next_id,
      with_stream (record s { net = n; next_id = (s.next_id + 1) % 2 ^ 32 }) s.next_id t1,
    )

  abbrev pub write_on :
      (id : ℕ) → List ℕ → AdbServer N T → Option T → Result AdbError (AdbServer N T)
  write_on id bytes s none = err closed
  write_on id bytes s (some t) = dev.write_all bytes t >>= λ t1. ok (with_stream s id t1)

  unfoldable pub write : (id : ℕ) → List ℕ → AdbServer N T → Result AdbError (AdbServer N T)
  write id [] s = ok s
  write id (b ∷ bytes) s = write_on id (b ∷ bytes) s (s.streams id)

  abbrev pub received :
      (id : ℕ)
      → AdbServer N T
      → Option (Option (List ℕ) × T)
      → Option (Result AdbError (List ℕ × AdbServer N T))
  received id s none = none
  received id s (some (none, t)) = some (err closed)
  received id s (some (some bytes, t)) = some (ok (bytes, with_stream s id t))

  abbrev pub read_on :
      (id secs : ℕ) → AdbServer N T → Option T → Option (Result AdbError (List ℕ × AdbServer N T))
  read_on id secs s none = some (err closed)
  read_on id secs s (some t) = received id s (recv secs t)

  unfoldable pub read :
      (id secs : ℕ) → AdbServer N T → Option (Result AdbError (List ℕ × AdbServer N T))
  read id secs s = read_on id secs s (s.streams id)

  unfoldable pub close_stream : (id : ℕ) → AdbServer N T → AdbServer N T
  close_stream id s = record s { streams = insert id none s.streams }

  abbrev pub server_ops : StreamOps (AdbServer N T)
  server_ops = record {
    open_stream = open_stream;
    write = write;
    read = read;
    close_stream = close_stream;
  }
