-- ===== src/Adb/Ends.antt =====
-- The opening exchange ends: each turn that goes on has read a packet, and a packet takes bytes from
-- the stream.
use droidmirror.Base.{
  ℕ, zero, suc, ◌+◌, ◌*◌, ◌≤◌, ◌<◌, ◌≡◌, ◌⊎◌, inl, inr, refl, ap, subst, ◌∙◌, arith, Bool, true,
  false, ◌&&◌, not, Option, none, some, List, ◌==◌, length, Bool-cases,
}
use droidmirror.Base.Result.{Result, ok, err, ◌>>=◌}
use droidmirror.Adb.Protocol.{
  Command, Packet, AdbError, auth, auth_signature, auth_rsapublickey, cnxn, sync, open_, okay, clse,
  wrte, auth_token,
}
use droidmirror.Adb.Packets.{IoLaws, write_packet, read_packet}
use droidmirror.Adb.Connect.{
  Read, Host, Banner, Step, done, again, step_of, on_packet, after_read, turn, handshake_loop,
  with_key, with_hello, handshake,
}
use droidmirror.Adb.Login.{Step-cases, handshake_loop_done, handshake_loop_again}
use droidmirror.Adb.Reads.{read_packet_takes, write_packet_keeps}

-- A step that goes on has at most `top` bytes left to read.
abbrev LeavesAtMost : {S : Type 0} (left : S → ℕ) → ℕ → Step S → Type 0
LeavesAtMost left top (done r) = Unit
LeavesAtMost left top (again sent s) = left s ≤ top

-- What `tokio::time::timeout` does: nothing, or what it was given, once.
abbrev pub IsTimeout : {S : Type 0} → Host S → Type 0
IsTimeout {S} host =
    (n : ℕ) (f : S → Read S) (s : S) → (host.within n f s ≡ none) ⊎ (host.within n f s ≡ some (f s))

module _ {S : Type 0} (host : Host S) (laws : IoLaws host.dev) where
  abbrev left_for : S → ℕ
  left_for s = length (laws.incoming s)

  step_of-LeavesAtMost :
      (sent : Bool) (top : ℕ) (r : Result AdbError S)
      → ((s : S) → r ≡ ok s → left_for s ≤ top)
      → LeavesAtMost left_for top (step_of sent r)
  step_of-LeavesAtMost sent top (ok s) h = h s refl
  step_of-LeavesAtMost sent top (err e) h = tt

  -- A packet that is answered leaves the stream as it was.
  answered-LeavesAtMost :
      (sent : Bool) (command : Command) (arg0 arg1 : ℕ) (bytes : List ℕ) (s : S)
      → LeavesAtMost left_for
          (left_for s)
          (step_of sent (write_packet host.dev command arg0 arg1 bytes s))
  answered-LeavesAtMost sent command arg0 arg1 bytes s =
      step_of-LeavesAtMost sent (left_for s) _ (λ s' e.
        let same = ap length (write_packet_keeps host.dev laws command arg0 arg1 bytes s s' e) in
        omega (arith, same))

  signed-LeavesAtMost :
      (signature : Result AdbError (List ℕ)) (s : S)
      → LeavesAtMost left_for
          (left_for s)
          (step_of true (signature >>= λ sig. write_packet host.dev auth auth_signature 0 sig s))
  signed-LeavesAtMost (ok sig) s = answered-LeavesAtMost true auth auth_signature 0 sig s
  signed-LeavesAtMost (err e) s = tt

  on_auth-LeavesAtMost :
      (pubkey : List ℕ) (sent : Bool) (pkt : Packet) (bytes : List ℕ) (s : S)
      → pkt.command ≡ auth
      → LeavesAtMost left_for (left_for s) (on_packet host pubkey sent pkt bytes s)
  unfolding on_packet
  on_auth-LeavesAtMost pubkey sent pkt bytes s e =
      rw (e) (elim (Bool-cases (pkt.arg0 == auth_token && not sent)) [
        | inl t ↦ rw t (signed-LeavesAtMost (host.sign_token bytes) s)
        | inr f ↦ rw f (elim (Bool-cases (pkt.arg0 == auth_token)) [
          | inl t ↦ rw t (answered-LeavesAtMost sent auth auth_rsapublickey 0 pubkey s)
          | inr f' ↦ rw f' tt
        ])
      ])

  by_command-LeavesAtMost :
      (command : Command) (pubkey : List ℕ) (sent : Bool) (pkt : Packet) (bytes : List ℕ) (s : S)
      → pkt.command ≡ command
      → LeavesAtMost left_for (left_for s) (on_packet host pubkey sent pkt bytes s)
  unfolding on_packet
  by_command-LeavesAtMost auth pubkey sent pkt bytes s e =
      on_auth-LeavesAtMost pubkey sent pkt bytes s e
  by_command-LeavesAtMost cnxn pubkey sent pkt bytes s e = rw (e) tt
  by_command-LeavesAtMost sync pubkey sent pkt bytes s e = rw (e) tt
  by_command-LeavesAtMost open_ pubkey sent pkt bytes s e = rw (e) tt
  by_command-LeavesAtMost okay pubkey sent pkt bytes s e = rw (e) tt
  by_command-LeavesAtMost clse pubkey sent pkt bytes s e = rw (e) tt
  by_command-LeavesAtMost wrte pubkey sent pkt bytes s e = rw (e) tt

  -- After a packet's bytes have gone.
  abbrev shorter_for : S → ℕ
  shorter_for s = left_for s + 24

  after_read-LeavesAtMost :
      (pubkey : List ℕ) (sent : Bool) (o : Option (Read S)) (top : ℕ)
      → ((pkt : Packet) (bytes : List ℕ) (s' : S)
          → o ≡ some (ok ((pkt, bytes), s'))
          → shorter_for s' ≤ top)
      → LeavesAtMost shorter_for top (after_read host pubkey sent o)
  after_read-LeavesAtMost pubkey sent none top h = tt
  after_read-LeavesAtMost pubkey sent (some (err e)) top h = tt
  after_read-LeavesAtMost pubkey sent (some (ok ((pkt, bytes), s'))) top h =
      shorter (on_packet host pubkey sent pkt bytes s') (left_for s') (h pkt bytes s' refl)
        (by_command-LeavesAtMost pkt.command pubkey sent pkt bytes s' refl)
    where
      shorter :
          (st : Step S) (low : ℕ)
          → low + 24 ≤ top
          → LeavesAtMost left_for low st
          → LeavesAtMost shorter_for top st
      shorter (done r) low e k = tt
      shorter (again sent1 s1) low e k = omega (arith, e, k)

  module _ (timely : IsTimeout host) where
    turn-LeavesAtMost :
        (pubkey : List ℕ) (sent : Bool) (s : S)
        → LeavesAtMost shorter_for (left_for s) (turn host pubkey sent s)
    unfolding turn
    turn-LeavesAtMost pubkey sent s = elim (Bool-cases (host.left s == 0)) [
      | inl late ↦ rw late tt
      | inr early ↦ rw early (
          after_read-LeavesAtMost pubkey sent _ (left_for s) (λ pkt bytes s' e.
            elim (timely (host.left s) (read_packet host.dev) s) [
              | inl nothing ↦ cc
              | inr read ↦
                  let got : read_packet host.dev s ≡ ok ((pkt, bytes), s') = cc in
                  read_packet_takes host.dev laws pkt bytes s s' got
            ]))
    ]

    handshake_loop-ends :
        (fuel : ℕ) (pubkey : List ℕ) (sent : Bool) (s : S)
        → left_for s < 24 * fuel
        → (r : Result AdbError (Banner × S)) × (handshake_loop fuel host pubkey sent s ≡ some r)
    handshake_loop-ends zero pubkey sent s h = absurd (omega (arith, h))
    handshake_loop-ends (suc fuel) pubkey sent s h = elim (Step-cases (turn host pubkey sent s)) [
      | inl (r, t) ↦ (r, handshake_loop_done fuel host pubkey sent s r t)
      | inr (sent1, s1, t) ↦
          let fewer : shorter_for s1 ≤ left_for s =
            subst (LeavesAtMost shorter_for (left_for s)) t (turn-LeavesAtMost pubkey sent s) in
          let (r, ends) = handshake_loop-ends fuel pubkey sent1 s1 (omega (arith, h, fewer)) in
          (r, handshake_loop_again fuel host pubkey sent s sent1 s1 t ∙ ends)
    ]

    with_key-ends :
        (fuel : ℕ) (s : S) (key : Result AdbError (List ℕ))
        → left_for s < 24 * fuel
        → (r : Result AdbError (Banner × S)) × (with_key fuel host s key ≡ some r)
    with_key-ends fuel s (err e) h = (err e, refl)
    with_key-ends fuel s (ok pubkey) h = handshake_loop-ends fuel pubkey false s h

    with_hello-ends :
        (fuel top : ℕ) (hello : Result AdbError S)
        → ((s : S) → hello ≡ ok s → left_for s ≤ top)
        → top < 24 * fuel
        → (r : Result AdbError (Banner × S)) × (with_hello fuel host hello ≡ some r)
    with_hello-ends fuel top (err e) le h = (err e, refl)
    with_hello-ends fuel top (ok s) le h =
        with_key-ends fuel s host.public_key (omega (arith, le s refl, h))

-- The opening exchange ends, with a banner or an error, whatever the device has sent: a turn for
-- each 24 bytes to read, and one more, are enough. The timeout gives nothing or runs the read once.
pub handshake-ends :
    {S : Type 0} (host : Host S) (laws : IoLaws host.dev) (timely : IsTimeout host) (fuel : ℕ)
    (s : S)
    → length (laws.incoming s) < 24 * fuel
    → (r : Result AdbError (Banner × S)) × (handshake fuel host s ≡ some r)
unfolding handshake
handshake-ends host laws timely fuel s h =
    with_hello-ends host laws timely fuel (length (laws.incoming s)) _
      (λ s' e.
        let same = ap length (write_packet_keeps host.dev laws _ _ _ _ s s' e) in
        omega (arith, same))
      h
