-- ===== src/Adb/Pipe.antt =====
-- A transport in memory: bytes to read and bytes written. It has the laws of `AdbIo`.
use droidmirror.Base.{
  ℕ, ◌≤◌, ◌<◌, ◌≡◌, refl, ap, arith, List, [], ◌++◌, leb, length, take, drop, if◌then◌else◌, some,
}
use droidmirror.Base.Result.{Result, ok, err}
use droidmirror.Adb.Protocol.{AdbError, io}
use droidmirror.Adb.Packets.{AdbIo, IoLaws}
use droidmirror.Adb.Connect.{Host}
use droidmirror.Adb.Keys.{IsPrompt}

pub record Pipe : Type 0 where
  pub ahead : List ℕ
  pub written : List ℕ

abbrev pub pipe : AdbIo Pipe
pipe = record {
  read_exact = λ n s.
      if leb n (length s.ahead)
      then ok (take n s.ahead, record s { ahead = drop n s.ahead })
      else err (io []);
  write_all = λ bs s. ok (record s { written = s.written ++ bs });
}

-- The bytes are there.
pub pipe_gives :
    (n : ℕ) (s : Pipe)
    → n ≤ length s.ahead
    → pipe.read_exact n s ≡ ok (take n s.ahead, record s { ahead = drop n s.ahead })
pipe_gives n s h = ground arith

pub pipe_fails : (n : ℕ) (s : Pipe) → length s.ahead < n → pipe.read_exact n s ≡ err (io [])
pipe_fails n s h = ground arith

pub same_pipe : {a b : Pipe} {r : Result AdbError Pipe} → r ≡ ok a → r ≡ ok b → a ≡ b
same_pipe e e' = cc

abbrev pub pipe_laws : IoLaws pipe
pipe_laws = record {
  incoming = λ s. s.ahead;
  outgoing = λ s. s.written;
  read = λ n s h. (record s { ahead = drop n s.ahead }, pipe_gives n s h, refl, refl);
  short = λ n s h. (io [], pipe_fails n s h);
  write =
      λ bs s s' e. (ap (λ p. p.written) (same_pipe e refl), ap (λ p. p.ahead) (same_pipe e refl));
}

-- A host with a pipe, a clock that stands still, and a key that signs by repeating the token.
abbrev pub host : Host Pipe
host = record {
  dev = pipe;
  left = λ s. 60000;
  within = λ n f s. some (f s);
  public_key = ok [];
  sign_token = λ token. ok (token ++ token);
  from_utf8_lossy = λ bs. bs;
}

abbrev pub host_prompt : IsPrompt host
host_prompt = record {
  writes = λ bs s. (record s { written = s.written ++ bs }, refl);
  early = λ s. refl;
  in_time = λ n f s. refl;
  pubkey = [];
  has_key = refl;
  sign = λ token. token ++ token;
  signs = λ token. refl;
}
