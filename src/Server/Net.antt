-- ===== src/Server/Net.antt =====
-- crates/server/src/android/net.rs: `write_all`, `read_some`, `poll_in`. The system calls on the
-- client's socket are arguments, over the state `N` of the network.
pub mod Sends
use droidmirror.Base.{
  ℕ, zero, suc, Bool, false, ◌&&◌, ◌||◌, Option, none, some, List, [], ◌∷◌, ◌<◌, ◌≤◌, ◌≡◌, true,
  ◌++◌, length, take, ltb, drop, if◌then◌else◌,
}
use droidmirror.Base.Result.{Result, ok, err}

-- `io::ErrorKind`, with the code of any other error.
pub data ErrorKind : Type 0 where
  interrupted : ErrorKind
  would_block : ErrorKind
  other : ℕ → ErrorKind

pub data NetError : Type 0 where
  os : ErrorKind → NetError
  write_zero : NetError

-- What `poll` gives: how many descriptors are ready, and the flags of this one.
pub record Ready : Type 0 where
  pub count : ℕ
  pub pollin : Bool
  pub pollhup : Bool
  pub pollerr : Bool

pub record Socket (N : Type 0) : Type 0 where
  pub write : List ℕ → N → Result ErrorKind ℕ × N
  pub read : (room : ℕ) → N → Result ErrorKind (List ℕ) × N
  pub poll : (timeout_ms : ℕ) → N → Result ErrorKind Ready × N
  pub sleep_ms : ℕ → N → N

abbrev pub Written : Type 0 → Type 0
Written N = Option (Result NetError (Unit {0}) × N)

module _ {N : Type 0} (sock : Socket N) where
  -- What follows a `write`; `again` is the next round of the loop.
  abbrev pub after_write :
      (again : List ℕ → N → Written N) → List ℕ → Result ErrorKind ℕ × N → Written N
  after_write again buf (err interrupted, w) = again buf w
  after_write again buf (err would_block, w) = again buf (sock.sleep_ms 2 w)
  after_write again buf (err (other code), w) = some (err (os (other code)), w)
  after_write again buf (ok zero, w) = some (err write_zero, w)
  after_write again buf (ok (suc n), w) = again (drop (suc n) buf) w

  -- The loop, on fuel: `none` when it has run out.
  unfoldable pub write_all : ℕ → List ℕ → N → Written N
  write_all fuel [] w = some (ok tt, w)
  write_all zero (b ∷ bs) w = none
  write_all (suc fuel) (b ∷ bs) w = after_write (write_all fuel) (b ∷ bs) (sock.write (b ∷ bs) w)

  -- The bytes that are now in the caller's buffer of `room` bytes.
  abbrev pub read_result : Result ErrorKind (List ℕ) → Result NetError (List ℕ)
  read_result (ok bytes) = ok bytes
  read_result (err interrupted) = ok []
  read_result (err would_block) = ok []
  read_result (err (other code)) = err (os (other code))

  unfoldable pub read_some : ℕ → N → Result NetError (List ℕ) × N
  read_some room w = let (r, w') = sock.read room w in (read_result r, w')

  abbrev pub poll_result : Result ErrorKind Ready → Result NetError Bool
  poll_result (ok p) = ok (ltb 0 p.count && (p.pollin || p.pollhup || p.pollerr))
  poll_result (err interrupted) = ok false
  poll_result (err kind) = err (os kind)

  unfoldable pub poll_in : ℕ → N → Result NetError Bool × N
  poll_in timeout_ms w = let (r, w') = sock.poll timeout_ms w in (poll_result r, w')

-- What a connected stream socket does.
pub record SocketLaws {N : Type 0} (sock : Socket N) : Type 0 where
  -- The bytes that have been taken for the peer.
  pub sent : N → List ℕ
  -- A `write` of some bytes that succeeds takes at least one of them.
  pub wrote :
      (b : ℕ) (bs : List ℕ) (w w' : N) (n : ℕ)
      → sock.write (b ∷ bs) w ≡ (ok n, w')
      → (0 < n) × (n ≤ length (b ∷ bs)) × (sent w' ≡ sent w ++ take n (b ∷ bs))
  -- A `write` that fails takes nothing.
  pub failed :
      (bs : List ℕ) (w w' : N) (k : ErrorKind) → sock.write bs w ≡ (err k, w') → sent w' ≡ sent w
  pub reads : (room : ℕ) (w : N) → sent (sock.read room w).1 ≡ sent w
  pub polls : (timeout_ms : ℕ) (w : N) → sent (sock.poll timeout_ms w).1 ≡ sent w
  pub sleeps : (ms : ℕ) (w : N) → sent (sock.sleep_ms ms w) ≡ sent w
