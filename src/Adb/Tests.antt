-- ===== src/Adb/Tests.antt =====
-- Runs of the theorems on packets, the opening exchange and the streams.
use droidmirror.Base.{◌↔◌, sym, ap, Option, length}
use droidmirror.Base.Text.{hex}
use droidmirror.Adb.Streams.{Wait, acked}
use droidmirror.Adb.Write
use droidmirror.Adb.Daemon.Streams.{AdbServer, Network, server_ops}
use droidmirror.Adb.Daemon.Streams.Pushed.{NetworkLaws}
use droidmirror.Adb.Sync.{push}
use droidmirror.Adb.Daemon.{write_request, read_hex_payload}
use droidmirror.Adb.Daemon.Requests.{read_hex_payload-write_request}
use droidmirror.Adb.Daemon.Serials.{
  Bytes, is_emulator, devices_of, add_line, add_device, same_bytes, split, filter, devices,
  hardware, candidates, pick_serial,
}
use droidmirror.Adb.Daemon.Serials.Picked.{IsIn, pick_serial-only, pick_serial-wanted}
use droidmirror.Adb.Daemon.Facade.{connect}
use droidmirror.Adb.Daemon.Facade.Connected.{connect-pick_serial}
use droidmirror.Base.{
  none, inr, true, ◌||◌, ◌==◌, if◌then◌else◌, ℕ, ◌≤◌, ◌≡◌, refl, arith, false, some, List, [], ◌∷◌,
  ◌++◌,
}
use droidmirror.Base.Result.{Result, ok}
use droidmirror.Base.Bytes.{le_bytes}
use droidmirror.Base.Text.{ascii}
use droidmirror.Adb.Protocol.{
  AdbError, Packet, clse, cnxn, wrte, okay, adb_version, adb_maxdata, cnxn_banner, new, to_bytes,
  from_bytes, checksum,
}
use droidmirror.Adb.RoundTrip.{from_bytes-to_bytes}
use droidmirror.Adb.Packets.{read_packet, write_packet}
use droidmirror.Adb.Exchange.{packet_bytes, read_packet-write_packet}
use droidmirror.Adb.Connect.{Banner, clamp_payload, handshake}
use droidmirror.Adb.Login.{handshake-bounds}
use droidmirror.Adb.Ends.{handshake-ends}
use droidmirror.Adb.Keys.{device_bytes, replies, banner_of, handshake-device_bytes}
use droidmirror.Adb.Streams.{
  StreamSlot, Shared, ack_okay, ack_closed, answer, at_stream, set_remote, deliver, hang_up, route,
  route_command,
}
use droidmirror.Adb.Delivery.{received, route_all-received}
use droidmirror.Adb.Pipe.{Pipe, pipe, pipe_laws, host, host_prompt}

from_bytes-to_bytes_example : from_bytes (to_bytes (new okay 9 1 [])) ≡ ok (new okay 9 1 [])
unfolding checksum
from_bytes-to_bytes_example =
    from_bytes-to_bytes (new okay 9 1 []) (omega arith, omega arith, omega arith, omega arith) refl

abbrev quiet : Pipe
quiet = record { ahead = []; written = 1 ∷ [] }

abbrev hello : List ℕ
hello = ascii "hello"

abbrev sent_pipe : Pipe
sent_pipe = record { ahead = []; written = 1 ∷ packet_bytes wrte 1 9 hello }

abbrev arrived : Pipe
arrived = record { ahead = packet_bytes wrte 1 9 hello ++ (8 ∷ []); written = [] }

read_packet-write_packet_example :
    (t' : Pipe) × (read_packet pipe arrived ≡ ok ((new wrte 1 9 hello, hello), t'))
    × (t'.ahead ≡ 8 ∷ [])
    × (t'.written ≡ [])
unfolding write_packet to_bytes le_bytes
read_packet-write_packet_example =
    read_packet-write_packet pipe pipe_laws pipe pipe_laws wrte 1 9 hello (8 ∷ []) quiet sent_pipe
      arrived (omega arith) (omega arith) (omega arith) refl refl

abbrev token : List ℕ
token = ascii "0123456789abcdef0123"

abbrev greeting : List ℕ
greeting = ascii "device::fake" ++ (0 ∷ [])

abbrev device : Pipe
device = record {
  ahead = device_bytes (token ∷ token ∷ []) adb_version 65536 greeting (7 ∷ []);
  written = [];
}

abbrev asked : Pipe
asked = record { ahead = device_bytes (token ∷ []) adb_version 0 greeting []; written = [] }

let_in :
    (s' : Pipe) × (handshake 3 host device
      ≡ some (ok (banner_of host pipe_laws host_prompt 65536 greeting, s')))
    × (s'.ahead ≡ 7 ∷ [])
    × (s'.written
        ≡ []
          ++ (packet_bytes cnxn adb_version adb_maxdata cnxn_banner
              ++ replies host pipe_laws host_prompt false (token ∷ token ∷ [])))
let_in =
    handshake-device_bytes host pipe_laws host_prompt (token ∷ token ∷ []) adb_version 65536
      greeting (7 ∷ []) device (omega arith) (omega arith) (omega arith) (omega arith) refl

handshake-device_bytes_example :
    (s' : Pipe) × (handshake 2 host asked
      ≡ some (ok (banner_of host pipe_laws host_prompt 0 greeting, s')))
    × (s'.ahead ≡ [])
    × (s'.written
        ≡ []
          ++ (packet_bytes cnxn adb_version adb_maxdata cnxn_banner
              ++ replies host pipe_laws host_prompt false (token ∷ [])))
handshake-device_bytes_example =
    handshake-device_bytes host pipe_laws host_prompt (token ∷ []) adb_version 0 greeting [] asked
      (omega arith) (omega arith) (omega arith) (omega arith) refl

handshake-bounds_example : (4096 ≤ 65536) × (65536 ≤ adb_maxdata)
unfolding clamp_payload
handshake-bounds_example =
    handshake-bounds 3 host device let_in.0 (banner_of host pipe_laws host_prompt 65536 greeting)
      let_in.1

-- A device that sends a packet of a stream before the connection is open.
handshake-ends_example : (r : Result AdbError (Banner × Pipe)) × (handshake 2 host arrived ≡ some r)
unfolding to_bytes le_bytes
handshake-ends_example = handshake-ends host pipe_laws (λ n f s. inr refl) 2 arrived (omega arith)

abbrev open_slot : StreamSlot
open_slot = record { remote_id = 9; tx = true; queue = [] }

abbrev shared : Shared Pipe
shared = record {
  link = quiet;
  max_payload = 65536;
  next_local = 3;
  streams = λ k. if k == 1 || k == 2 then some open_slot else none;
  waiters = λ k. k == 2;
  acks = [];
}

abbrev packets : List (Packet × List ℕ)
packets = (new okay 8 2 [], []) ∷ (new wrte 9 1 hello, hello) ∷ (new clse 9 1 [], []) ∷ []

abbrev shared_wrte : Shared Pipe
shared_wrte =
    let sh = answer 2 (ack_okay 8) (at_stream 2 (set_remote 8) shared) in
    at_stream 1 (deliver hello)
      (record sh { link = record quiet { written = quiet.written ++ to_bytes (new okay 1 9 []) } })

abbrev shared_after : Shared Pipe
shared_after = at_stream 1 hang_up (answer 1 ack_closed shared_wrte)

route_all-received_example :
    (slot' : StreamSlot) × (shared_after.streams 1 ≡ some slot')
    × (slot'.queue ≡ [] ++ received 1 packets)
unfolding route route_command write_packet to_bytes le_bytes
route_all-received_example =
    route_all-received pipe packets shared shared_after 1 open_slot refl refl refl (omega arith)

-- A stream that is open in a connection of small packets, where each packet is answered at once.
abbrev narrow : Shared Pipe
narrow = record shared { max_payload = 2 }

abbrev at_once : ℕ → Shared Pipe → Wait × Shared Pipe
at_once id sh = (acked (ack_okay 9), sh)

-- A server of sockets that answer `OKAY` to all that is asked for.
abbrev fresh : Pipe
fresh = record { ahead = ascii "OKAYOKAY"; written = [] }

abbrev network : Network (Unit {0}) Pipe
network = record {
  dial = λ n. ok (fresh, n);
  recv = λ secs t. some (some (ascii "OKAY" ++ (0 ∷ 0 ∷ 0 ∷ 0 ∷ [])), t);
}

network_fresh : (n n' : Unit {0}) (t : Pipe) → network.dial n ≡ ok (t, n') → t.written ≡ []
network_fresh n n' t e = let same : fresh ≡ t = cc in ap (λ (p : Pipe). p.written) (sym same)

network_receives :
    (secs : ℕ) (t t' : Pipe) (bytes : Option (List ℕ))
    → network.recv secs t ≡ some (bytes, t')
    → t'.written ≡ t.written
network_receives secs t t' bytes e =
    let same : t ≡ t' = cc in ap (λ (p : Pipe). p.written) (sym same)

abbrev network_laws : NetworkLaws pipe_laws network
network_laws = record {
  fresh = λ n n' t e. network_fresh n n' t e;
  receives = λ secs t t' bytes e. network_receives secs t t' bytes e;
}

abbrev no_streams : AdbServer (Unit {0}) Pipe
no_streams = record { net = tt; serial = ascii "ABC"; next_id = 1; streams = λ id. none }

abbrev same_text : List ℕ → List ℕ
same_text text = text

abbrev pushed : Option (Result AdbError (AdbServer (Unit {0}) Pipe))
pushed =
    push (server_ops pipe network same_text same_text) same_text 1 hello (ascii "/a") 33261 7
      no_streams

abbrev or_start : Option (Result AdbError (AdbServer (Unit {0}) Pipe)) → AdbServer (Unit {0}) Pipe
or_start (some (ok s)) = s
or_start _ = no_streams

abbrev ask : List ℕ
ask = ascii "host:devices"

abbrev asked_devices : Pipe
asked_devices = record { ahead = []; written = (1 ∷ hex 4 12) ++ ask }

abbrev heard : Pipe
heard = record { ahead = (hex 4 12 ++ ask) ++ (8 ∷ []); written = [] }

read_hex_payload-write_request_example :
    (t' : Pipe) × (read_hex_payload pipe heard ≡ ok (ask, t')) × (t'.ahead ≡ 8 ∷ [])
unfolding write_request
read_hex_payload-write_request_example =
    read_hex_payload-write_request pipe pipe_laws pipe pipe_laws ask (8 ∷ []) quiet asked_devices
      heard (omega arith) refl refl

-- `ABC`, online, and `DEF`, that is not.
abbrev listed : List ℕ
listed = ascii "ABC" ++ (9 ∷ ascii "device" ++ (10 ∷ ascii "DEF" ++ (9 ∷ ascii "unauthorized")))

pick_serial-only_example :
    IsIn (ascii "ABC") (devices (λ b. b) listed).online
    × ((t : Bytes)
        → IsIn t (devices (λ b. b) listed).online
        → is_emulator t ≡ false
        → t ≡ ascii "ABC")
    × (is_emulator (ascii "ABC") ≡ true
        → (t : Bytes) → IsIn t (devices (λ b. b) listed).online
        → t ≡ ascii "ABC")
unfolding pick_serial devices split same_bytes hardware candidates filter devices_of add_line
    add_device
pick_serial-only_example = pick_serial-only (λ b. b) listed (ascii "ABC") refl

pick_serial-wanted_example :
    (pick_serial (λ b. b) listed (some (ascii "DEF")) ≡ ok (ascii "DEF"))
    ↔ (ascii "DEF" ≡ ascii "DEF") × IsIn (ascii "DEF") (devices (λ b. b) listed).online
pick_serial-wanted_example = pick_serial-wanted (λ b. b) listed (ascii "DEF") (ascii "DEF")

abbrev server : Pipe
server = record {
  ahead = ascii "OKAY" ++ (hex 4 (length listed) ++ (listed ++ []));
  written = 1 ∷ [];
}

abbrev server_asked : Pipe
server_asked = record server { written = (1 ∷ hex 4 12) ++ ask }

connect-pick_serial_example :
    connect pipe (λ b. b) (λ b. b) none server ≡ pick_serial (λ b. b) listed none
unfolding write_request
connect-pick_serial_example =
    connect-pick_serial pipe pipe_laws (λ b. b) (λ b. b) none listed [] server server_asked
      (omega arith) refl refl
