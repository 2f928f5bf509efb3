-- ===== src/Adb/Sync.antt =====
-- crates/transport/src/adb/client.rs and server.rs: `push` and `shell`, the same in both but for the
-- error of a read that fails. They run over the streams of either client, an interface here.
pub mod Received
pub mod Pushed
use droidmirror.Base.{
  ℕ, zero, suc, ◌*◌, ◌+◌, ◌%◌, ◌^◌, Bool, true, false, Option, none, some, List, [], ◌∷◌, ◌++◌, leb,
  length, map, if◌then◌else◌,
}
use droidmirror.Base.Result.{Result, ok, err, ◌>>=◌}
use droidmirror.Base.Bytes.{slice, starts_with, le_bytes, read_le}
use droidmirror.Base.Text.{ascii, decimal}
use droidmirror.Adb.Protocol.{AdbError, timeout, msg, protocol, sync_reply}
use droidmirror.Adb.Streams.{chunks_from}

-- `open_stream`, `write`, `read` under a timeout, and `close_stream`.
pub record StreamOps (S : Type 0) : Type 0 where
  pub open_stream : (dest : List ℕ) → S → Result AdbError (ℕ × S)
  pub write : (id : ℕ) → List ℕ → S → Result AdbError S
  -- `none` for a timeout that has elapsed.
  pub read : (id secs : ℕ) → S → Option (Result AdbError (List ℕ × S))
  pub close_stream : (id : ℕ) → S → S

-- `d` in place of a write that fails.
abbrev pub or_same : {S : Type 0} → Result AdbError S → S → S
or_same (ok s) d = s
or_same (err e) d = d

abbrev pub sync_chunk : ℕ
sync_chunk = 64 * 1024

-- `len() as u32`, in four bytes.
abbrev pub u32_len : List ℕ → List ℕ
u32_len bytes = le_bytes 4 (length bytes % 2 ^ 32)

abbrev pub push_spec : (remote : List ℕ) (mode : ℕ) → List ℕ
push_spec remote mode = remote ++ (b',' ∷ decimal mode)

unfoldable pub send_request : (remote : List ℕ) (mode : ℕ) → List ℕ
send_request remote mode =
    ascii "SEND" ++ (u32_len (push_spec remote mode) ++ push_spec remote mode)

unfoldable pub data_request : List ℕ → List ℕ
data_request chunk = ascii "DATA" ++ (u32_len chunk ++ chunk)

unfoldable pub done_request : (mtime : ℕ) → List ℕ
done_request mtime = ascii "DONE" ++ le_bytes 4 mtime

abbrev pub quit_request : List ℕ
quit_request = ascii "QUIT" ++ (0 ∷ 0 ∷ 0 ∷ 0 ∷ [])

-- What the device's answer says; `lossy` is `String::from_utf8_lossy`.
unfoldable pub push_result : (lossy : List ℕ → List ℕ) → List ℕ → Result AdbError (Unit {0})
push_result lossy status =
    let n = read_le (slice 4 8 status) in
    if starts_with status (ascii "OKAY")
    then ok tt
    else if starts_with status (ascii "FAIL")
    then err (
        msg (
          if leb (8 + n) (length status)
          then lossy (slice 8 (8 + n) status)
          else ascii "push failed"))
    else err (protocol sync_reply)

-- The three kinds of request, in order.
abbrev pub push_requests : (bytes remote : List ℕ) (mode mtime : ℕ) → List (List ℕ)
push_requests bytes remote mode mtime =
    send_request remote mode
    ∷ (map data_request (chunks_from (length bytes) sync_chunk bytes) ++ (done_request mtime ∷ []))

module _ {S : Type 0} (ops : StreamOps S) (lossy : List ℕ → List ℕ) where
  open ops use {open_stream, write, read, close_stream}

  unfoldable pub write_each : (id : ℕ) → List (List ℕ) → S → Result AdbError S
  write_each id [] s = ok s
  write_each id (bytes ∷ more) s = write id bytes s >>= λ s1. write_each id more s1

  abbrev pub status_read :
      (again : List ℕ → S → Option (Result AdbError (List ℕ × S)))
      → List ℕ
      → Option (Result AdbError (List ℕ × S))
      → Option (Result AdbError (List ℕ × S))
  status_read again acc none = some (err timeout)
  status_read again acc (some (err e)) = some (err e)
  status_read again acc (some (ok (chunk, s))) =
      let later = again (acc ++ chunk) s in
      if leb 8 (length (acc ++ chunk)) then some (ok (acc ++ chunk, s)) else later

  -- The loop that reads the answer, on fuel: `none` when it has run out.
  unfoldable pub read_status : ℕ → (id : ℕ) → List ℕ → S → Option (Result AdbError (List ℕ × S))
  read_status zero id acc s = none
  read_status (suc fuel) id acc s = status_read (read_status fuel id) acc (read id 20 s)

  -- After the answer: `QUIT` and the close, whose errors are dropped.
  abbrev pub answered :
      (id : ℕ) → Option (Result AdbError (List ℕ × S)) → Option (Result AdbError S)
  answered id none = none
  answered id (some (err e)) = some (err e)
  answered id (some (ok (status, s))) =
      some (
        push_result lossy status >>= λ u.
        ok (close_stream id (or_same (write id quit_request s) s)))

  abbrev pub requested : (fuel id : ℕ) → Result AdbError S → Option (Result AdbError S)
  requested fuel id (err e) = some (err e)
  requested fuel id (ok s) = answered id (read_status fuel id [] s)

  abbrev pub with_sync :
      (fuel : ℕ) (bytes remote : List ℕ) (mode mtime : ℕ)
      → Result AdbError (ℕ × S)
      → Option (Result AdbError S)
  with_sync fuel bytes remote mode mtime (err e) = some (err e)
  with_sync fuel bytes remote mode mtime (ok (id, s)) =
      requested fuel id (write_each id (push_requests bytes remote mode mtime) s)

  unfoldable pub push :
      (fuel : ℕ) (bytes remote : List ℕ) (mode mtime : ℕ) → S → Option (Result AdbError S)
  push fuel bytes remote mode mtime s =
      with_sync fuel bytes remote mode mtime (open_stream (ascii "sync:") s)

  -- The loop of `shell`: it reads until the stream ends, fails or is silent for a minute.
  abbrev pub shell_read :
      (again : List ℕ → S → Option (List ℕ × S))
      → (out : List ℕ) → S
      → Option (Result AdbError (List ℕ × S))
      → Option (List ℕ × S)
  shell_read again out s none = some (out, s)
  shell_read again out s (some (err e)) = some (out, s)
  shell_read again out s (some (ok (chunk, s'))) = again (out ++ chunk) s'

  unfoldable pub shell_loop : ℕ → (id : ℕ) → List ℕ → S → Option (List ℕ × S)
  shell_loop zero id out s = none
  shell_loop (suc fuel) id out s = shell_read (shell_loop fuel id) out s (read id 60 s)

  abbrev pub shell_done : (id : ℕ) → Option (List ℕ × S) → Option (Result AdbError (List ℕ × S))
  shell_done id none = none
  shell_done id (some (out, s)) = some (ok (lossy out, close_stream id s))

  abbrev pub with_shell :
      (fuel : ℕ) → Result AdbError (ℕ × S) → Option (Result AdbError (List ℕ × S))
  with_shell fuel (err e) = some (err e)
  with_shell fuel (ok (id, s)) = shell_done id (shell_loop fuel id [] s)

  unfoldable pub shell : (fuel : ℕ) (cmd : List ℕ) → S → Option (Result AdbError (List ℕ × S))
  shell fuel cmd s = with_shell fuel (open_stream (ascii "shell:" ++ cmd) s)
