-- ===== src/Adb/Connect.antt =====
-- crates/transport/src/adb/client.rs: `handshake`. The clock, the key's operations (auth.rs) and
-- `String::from_utf8_lossy` are arguments.
use droidmirror.Base.{
  ℕ, zero, suc, Bool, true, false, ◌&&◌, not, Option, none, some, List, [], ◌∷◌, ltb, ◌==◌,
  if◌then◌else◌,
}
use droidmirror.Base.Result.{Result, ok, err, ◌>>=◌}
use droidmirror.Adb.Protocol.{
  cnxn, auth, Packet, AdbError, protocol, unexpected, timeout, adb_version, adb_maxdata,
  cnxn_banner, auth_token, auth_signature, auth_rsapublickey,
}
use droidmirror.Adb.Packets.{AdbIo, write_packet, read_packet}

abbrev pub Read : Type 0 → Type 0
Read S = Result AdbError ((Packet × List ℕ) × S)

pub record Host (S : Type 0) : Type 0 where
  pub dev : AdbIo S
  -- The time until the deadline.
  pub left : S → ℕ
  -- `tokio::time::timeout`, with `none` for a timeout that has elapsed.
  pub within : ℕ → (S → Read S) → S → Option (Read S)
  pub public_key : Result AdbError (List ℕ)
  pub sign_token : List ℕ → Result AdbError (List ℕ)
  pub from_utf8_lossy : List ℕ → List ℕ

pub record Banner : Type 0 where
  pub banner : List ℕ
  pub max_payload : ℕ

trim_front : List ℕ → List ℕ
trim_front [] = []
trim_front (b ∷ bs) = let rest = trim_front bs in if b == 0 then rest else b ∷ bs

-- The list without the NUL bytes at its end.
trim_back : List ℕ → List ℕ
trim_back [] = []
trim_back (b ∷ bs) = elim (trim_back bs) [
  | [] ↦ if b == 0 then [] else b ∷ []
  | r ∷ rest ↦ b ∷ r ∷ rest
]

-- `trim_matches('\0')`.
unfoldable pub trim_matches_nul : List ℕ → List ℕ
unfolding trim_front trim_back
trim_matches_nul bs = trim_back (trim_front bs)

-- `arg1.clamp(4096, ADB_MAXDATA)`.
unfoldable pub clamp_payload : ℕ → ℕ
clamp_payload n = if ltb n 4096 then 4096 else if ltb adb_maxdata n then adb_maxdata else n

-- What a packet does to the loop.
pub data Step (S : Type 0) : Type 0 where
  done : Result AdbError (Banner × S) → Step S
  again : (sent_signature : Bool) → S → Step S

abbrev pub step_of : {S : Type 0} → (sent_signature : Bool) → Result AdbError S → Step S
step_of sent (ok s) = again sent s
step_of sent (err e) = done (err e)

-- The `match` on a packet that has arrived.
unfoldable pub on_packet :
    {S : Type 0}
    → Host S
    → (pubkey : List ℕ) → (sent_signature : Bool) → Packet
    → List ℕ
    → S
    → Step S
on_packet host pubkey sent pkt bytes s = elim pkt.command [
  | cnxn ↦ done (
      ok (
        record {
          banner = trim_matches_nul (host.from_utf8_lossy bytes);
          max_payload = clamp_payload pkt.arg1;
        },
        s,
      ))
  | auth ↦
      if pkt.arg0 == auth_token && not sent
      then step_of true
          (host.sign_token bytes >>= λ sig. write_packet host.dev auth auth_signature 0 sig s)
      else if pkt.arg0 == auth_token
      then step_of sent (write_packet host.dev auth auth_rsapublickey 0 pubkey s)
      else done (err (protocol (unexpected auth)))
  | other ↦ done (err (protocol (unexpected other)))
]

-- What follows `timeout(left, read_packet(io))`.
abbrev pub after_read : {S : Type 0} → Host S → (pubkey : List ℕ) → Bool → Option (Read S) → Step S
after_read host pubkey sent none = done (err timeout)
after_read host pubkey sent (some (err e)) = done (err e)
after_read host pubkey sent (some (ok ((pkt, bytes), s))) = on_packet host pubkey sent pkt bytes s

-- One turn of the loop.
unfoldable pub turn : {S : Type 0} → Host S → (pubkey : List ℕ) → Bool → S → Step S
turn host pubkey sent s =
    if host.left s == 0
    then done (err timeout)
    else after_read host pubkey sent (host.within (host.left s) (read_packet host.dev) s)

-- The loop, on fuel: `none` when it has run out.
unfoldable pub handshake_loop :
    {S : Type 0} → ℕ → Host S → (pubkey : List ℕ) → Bool → S → Option (Result AdbError (Banner × S))
handshake_loop zero host pubkey sent s = none
handshake_loop (suc fuel) host pubkey sent s = elim (turn host pubkey sent s) [
  | done r ↦ some r
  | again sent' s' ↦ handshake_loop fuel host pubkey sent' s'
]

-- From the public key on.
abbrev pub with_key :
    {S : Type 0} → ℕ → Host S → S → Result AdbError (List ℕ) → Option (Result AdbError (Banner × S))
with_key fuel host s (err e) = some (err e)
with_key fuel host s (ok pubkey) = handshake_loop fuel host pubkey false s

-- From the first packet's `?` on.
abbrev pub with_hello :
    {S : Type 0} → ℕ → Host S → Result AdbError S → Option (Result AdbError (Banner × S))
with_hello fuel host (err e) = some (err e)
with_hello fuel host (ok s) = with_key fuel host s host.public_key

unfoldable pub handshake : {S : Type 0} → ℕ → Host S → S → Option (Result AdbError (Banner × S))
handshake fuel host s =
    with_hello fuel host (write_packet host.dev cnxn adb_version adb_maxdata cnxn_banner s)
