-- ===== src/Adb/Reads.antt =====
-- What a read takes from the stream, and that a write leaves it alone.
use droidmirror.Base.{
  ℕ, ◌+◌, ◌≤◌, ◌≡◌, inl, inr, sym, ap, ◌∙◌, arith, List, [], ◌∷◌, ltb, leb, leb→le, length, drop,
  Bool-cases, length-drop,
}
use droidmirror.Base.Result.{Result, ok, >>=-eq-ok, >>-eq-ok}
use droidmirror.Adb.Protocol.{Command, Packet, AdbError, from_bytes}
use droidmirror.Adb.Packets.{AdbIo, IoLaws, write_packet, read_packet, read_payload}

same_state :
    {P S : Type 0} (s t : S) (p q : P)
    → ◌≡◌ {A = Result AdbError (P × S)} (ok (p, s)) (ok (q, t))
    → s ≡ t
same_state s t p q e = cc

module _ {S : Type 0} (dev : AdbIo S) (laws : IoLaws dev) where
  abbrev pub left_to_read : S → ℕ
  left_to_read s = length (laws.incoming s)

  -- A read that succeeds has its bytes.
  pub read_exact_takes :
      (n : ℕ) (s s1 : S) (bs : List ℕ)
      → dev.read_exact n s ≡ ok (bs, s1)
      → left_to_read s1 + n ≤ left_to_read s
  read_exact_takes n s s1 bs e = elim (Bool-cases (leb n (left_to_read s))) [
    | inl enough ↦
        let here = leb→le n (left_to_read s) enough in
        let (s2, got, rest, out) = laws.read n s here in
        let same : s2 ≡ s1 = cc in
        let count : left_to_read s1 ≡ length (drop n (laws.incoming s)) =
          rw (sym same) (ap length rest) in
        omega (arith, count, here, length-drop n (laws.incoming s))
    | inr few ↦ let (why, fails) = laws.short n s (ground (arith, few)) in cc
  ]

  pub write_packet_keeps :
      (command : Command) (arg0 arg1 : ℕ) (bytes : List ℕ) (s s' : S)
      → write_packet dev command arg0 arg1 bytes s ≡ ok s'
      → laws.incoming s' ≡ laws.incoming s
  unfolding write_packet
  write_packet_keeps command arg0 arg1 [] s s' e =
      let (s1, e1, e2) = >>=-eq-ok (dev.write_all _ s) _ e in
      let same : s1 ≡ s' = cc in rw (sym same) ((laws.write _ s s1 e1).1)
  write_packet_keeps command arg0 arg1 (b ∷ bytes) s s' e =
      let (s1, e1, e2) = >>=-eq-ok (dev.write_all _ s) _ e in
      (laws.write (b ∷ bytes) s1 s' e2).1 ∙ (laws.write _ s s1 e1).1

  read_payload_takes :
      (pkt got : Packet) (bytes : List ℕ) (s s' : S)
      → read_payload dev pkt s ≡ ok ((got, bytes), s')
      → left_to_read s' ≤ left_to_read s
  unfolding read_payload
  read_payload_takes pkt got bytes s s' e = elim (Bool-cases (ltb 0 pkt.data_length)) [
    | inl long ↦
        let e' = rw (long) at e in
        let ((bs, s1), e1, e2) = >>=-eq-ok (dev.read_exact pkt.data_length s) _ e' in
        let same = same_state s1 s' (pkt, bs) (got, bytes) (>>-eq-ok _ _ e2) in
        let fewer = read_exact_takes pkt.data_length s s1 bs e1 in
        let count : left_to_read s1 ≡ left_to_read s' = ap left_to_read same in
        omega (arith, fewer, count)
    | inr empty ↦
        let e' = rw (empty) at e in
        let same = same_state s s' (pkt, []) (got, bytes) e' in
        let count : left_to_read s ≡ left_to_read s' = ap left_to_read same in omega (arith, count)
  ]

  pub read_packet_takes :
      (pkt : Packet) (bytes : List ℕ) (s s' : S)
      → read_packet dev s ≡ ok ((pkt, bytes), s')
      → left_to_read s' + 24 ≤ left_to_read s
  unfolding read_packet
  read_packet_takes pkt bytes s s' e =
      let ((hdr, s1), e1, e2) = >>=-eq-ok (dev.read_exact 24 s) _ e in
      let (parsed, e3, e4) = >>=-eq-ok (from_bytes hdr) _ e2 in
      let paid = read_payload_takes parsed pkt bytes s1 s' (>>-eq-ok _ _ e4) in
      let header = read_exact_takes 24 s s1 hdr e1 in omega (arith, paid, header)
