-- ===== src/Adb/Login.antt =====
-- The opening exchange: it ends, its bounds, and what it sends to a device that asks for a key.
use droidmirror.Base.{
  ℕ, zero, suc, ◌≤◌, ◌≡◌, ◌⊎◌, inl, inr, refl, sym, ap, subst, ◌∙◌, arith, Bool, false, Option,
  none, some, List, ◌==◌, Bool-cases,
}
use droidmirror.Base.Result.{Result, ok, err}
use droidmirror.Adb.Protocol.{Packet, AdbError, adb_maxdata}
use droidmirror.Adb.Connect.{
  Read, Host, Banner, Step, done, again, on_packet, after_read, turn, handshake_loop, with_key,
  with_hello, handshake, clamp_payload,
}

clamp_payload-bounds : (n : ℕ) → (4096 ≤ clamp_payload n) × (clamp_payload n ≤ adb_maxdata)
unfolding clamp_payload
clamp_payload-bounds n = ground arith

-- The bounds of a step that ends with a banner.
abbrev IsBounded : {S : Type 0} → Step S → Type 0
IsBounded (done (ok (b, s))) = (4096 ≤ b.max_payload) × (b.max_payload ≤ adb_maxdata)
IsBounded (done (err e)) = Unit
IsBounded (again sent s) = Unit

on_packet-IsBounded :
    {S : Type 0} (host : Host S) (pubkey : List ℕ) (sent : Bool) (pkt : Packet) (bytes : List ℕ)
    (s : S)
    → IsBounded (on_packet host pubkey sent pkt bytes s)
unfolding on_packet
on_packet-IsBounded host pubkey sent pkt bytes s = ground (arith, clamp_payload-bounds pkt.arg1)

after_read-IsBounded :
    {S : Type 0} (host : Host S) (pubkey : List ℕ) (sent : Bool) (o : Option (Read S))
    → IsBounded (after_read host pubkey sent o)
after_read-IsBounded host pubkey sent none = tt
after_read-IsBounded host pubkey sent (some (err e)) = tt
after_read-IsBounded host pubkey sent (some (ok ((pkt, bytes), s))) =
    on_packet-IsBounded host pubkey sent pkt bytes s

turn-IsBounded :
    {S : Type 0} (host : Host S) (pubkey : List ℕ) (sent : Bool) (s : S)
    → IsBounded (turn host pubkey sent s)
unfolding turn
turn-IsBounded host pubkey sent s = elim (Bool-cases (host.left s == 0)) [
  | inl late ↦ rw late tt
  | inr early ↦ rw early (after_read-IsBounded host pubkey sent _)
]

pub Step-cases :
    {S : Type 0} (st : Step S)
    → ((r : Result AdbError (Banner × S)) × (st ≡ done r))
      ⊎ ((sent : Bool) × (s : S) × (st ≡ again sent s))
Step-cases (done r) = inl (r, refl)
Step-cases (again sent s) = inr (sent, s, refl)

module _ {S : Type 0} (fuel : ℕ) (host : Host S) (pubkey : List ℕ) (sent : Bool) (s : S) where
  pub handshake_loop_done :
      (r : Result AdbError (Banner × S))
      → turn host pubkey sent s ≡ done r
      → handshake_loop (suc fuel) host pubkey sent s ≡ some r
  unfolding handshake_loop
  handshake_loop_done r e = rw (e, handshake_loop) refl

  pub handshake_loop_again :
      (sent' : Bool) (s' : S)
      → turn host pubkey sent s ≡ again sent' s'
      → handshake_loop (suc fuel) host pubkey sent s ≡ handshake_loop fuel host pubkey sent' s'
  unfolding handshake_loop
  handshake_loop_again sent' s' e = rw (e, handshake_loop) refl

ok_of : {A : Type 0} {a : A} (b : A) → some b ≡ some a → b ≡ a
ok_of b e = cc

handshake_loop-bounds :
    {S : Type 0} (fuel : ℕ) (host : Host S) (pubkey : List ℕ) (sent : Bool) (s s' : S) (b : Banner)
    → handshake_loop fuel host pubkey sent s ≡ some (ok (b, s'))
    → (4096 ≤ b.max_payload) × (b.max_payload ≤ adb_maxdata)
unfolding handshake_loop
handshake_loop-bounds zero host pubkey sent s s' b e = cc
handshake_loop-bounds {S = S} (suc fuel) host pubkey sent s s' b e =
    elim (Step-cases (turn host pubkey sent s)) [
      | inl (r, t) ↦
          let same : r ≡ ok (b, s') =
            ok_of r (sym (handshake_loop_done fuel host pubkey sent s r t) ∙ e) in
          subst (IsBounded {S = S}) (t ∙ ap done same) (turn-IsBounded host pubkey sent s)
      | inr (sent1, s1, t) ↦
          handshake_loop-bounds fuel host pubkey sent1 s1 s' b
            (sym (handshake_loop_again fuel host pubkey sent s sent1 s1 t) ∙ e)
    ]

with_key-bounds :
    {S : Type 0} (fuel : ℕ) (host : Host S) (s s' : S) (b : Banner) (key : Result AdbError (List ℕ))
    → with_key fuel host s key ≡ some (ok (b, s'))
    → (4096 ≤ b.max_payload) × (b.max_payload ≤ adb_maxdata)
with_key-bounds fuel host s s' b (err x) e = cc
with_key-bounds fuel host s s' b (ok pubkey) e =
    handshake_loop-bounds fuel host pubkey false s s' b e

with_hello-bounds :
    {S : Type 0} (fuel : ℕ) (host : Host S) (s' : S) (b : Banner) (hello : Result AdbError S)
    → with_hello fuel host hello ≡ some (ok (b, s'))
    → (4096 ≤ b.max_payload) × (b.max_payload ≤ adb_maxdata)
with_hello-bounds fuel host s' b (err x) e = cc
with_hello-bounds fuel host s' b (ok s) e = with_key-bounds fuel host s s' b host.public_key e

-- Whatever the device answers, the payload size that the connection then writes by is from 4096
-- bytes to a mebibyte.
pub handshake-bounds :
    {S : Type 0} (fuel : ℕ) (host : Host S) (s s' : S) (b : Banner)
    → handshake fuel host s ≡ some (ok (b, s'))
    → (4096 ≤ b.max_payload) × (b.max_payload ≤ adb_maxdata)
unfolding handshake
handshake-bounds fuel host s s' b e = with_hello-bounds fuel host s' b _ e
