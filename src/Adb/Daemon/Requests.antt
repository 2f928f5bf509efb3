-- ===== src/Adb/Daemon/Requests.antt =====
-- A request read back by its length prefix.
use droidmirror.Base.{
  ℕ, ◌+◌, ◌*◌, ◌/◌, ◌%◌, ◌^◌, ◌<◌, ◌≡◌, refl, ap, subst, ◌∙◌, arith, true, false, some, List, [],
  ◌∷◌, ◌++◌, ltb, ◌==◌, length, drop, if◌then◌else◌, append_assoc, if_true,
}
use droidmirror.Base.Result.{ok, >>=-eq-ok}
use droidmirror.Base.Bytes.{drop-append_length}
use droidmirror.Base.Utf8.{is_utf8}
use droidmirror.Base.Text.{hex, digit}
use droidmirror.Adb.Packets.{AdbIo, IoLaws}
use droidmirror.Adb.Exchange.{read_front}
use droidmirror.Adb.Daemon.{hex_4, hex_value, hex_from, from_hex, write_request, read_hex_payload}

hex_value-digit : (d : ℕ) → d < 16 → hex_value (digit d) ≡ some d
unfolding hex_value digit
hex_value-digit d h = ground arith

-- A digit is below 128, and no sign.
digit-lt : (d : ℕ) → d < 16 → (digit d < 128) × ((digit d == b'+') ≡ false)
unfolding digit
digit-lt d h = (ground arith, ground arith)

hex_from-digit :
    (acc d : ℕ) (cs : List ℕ) → d < 16 → hex_from acc (digit d ∷ cs) ≡ hex_from (acc * 16 + d) cs
unfolding hex_from
hex_from-digit acc d cs h = rw (hex_value-digit d h) refl

hex_from-nil : (acc n : ℕ) → acc ≡ n → hex_from acc [] ≡ some n
unfolding hex_from
hex_from-nil acc n e = ap some e

from_hex-hex : (n : ℕ) → n < 2 ^ 16 → from_hex (hex 4 n) ≡ some n
unfolding from_hex hex
from_hex-hex n h =
    let small : (m : ℕ) → m % 16 < 16 = λ (m : ℕ). omega arith in
    rw ((digit-lt (n / 16 / 16 / 16 % 16) (small _)).1) (
      hex_from-digit 0 (n / 16 / 16 / 16 % 16) _ (small _)
      ∙ hex_from-digit _ (n / 16 / 16 % 16) _ (small _)
      ∙ hex_from-digit _ (n / 16 % 16) _ (small _)
      ∙ hex_from-digit _ (n % 16) _ (small _)
      ∙ hex_from-nil
          ((((0 * 16 + n / 16 / 16 / 16 % 16) * 16 + n / 16 / 16 % 16) * 16 + n / 16 % 16) * 16
            + n % 16)
          n (omega (arith, h)))

is_utf8-hex : (n : ℕ) → is_utf8 (hex 4 n) ≡ true
unfolding is_utf8 hex
is_utf8-hex n =
    let small : (m : ℕ) → m % 16 < 16 = λ (m : ℕ). omega arith in
    ground (
      arith,
      (digit-lt (n / 16 / 16 / 16 % 16) (small _)).0,
      (digit-lt (n / 16 / 16 % 16) (small _)).0,
      (digit-lt (n / 16 % 16) (small _)).0,
      (digit-lt (n % 16) (small _)).0,
    )

length-hex : (n : ℕ) → length (hex 4 n) ≡ 4
unfolding hex
length-hex n = refl

hex_4-short : (n : ℕ) → n < 2 ^ 16 → hex_4 n ≡ hex 4 n
hex_4-short n h = if_true _ _ {b = ltb n (2 ^ 16)} (ground (arith, h))

module _ {S : Type 0} (dev : AdbIo S) (laws : IoLaws dev) where
  pub write_request_sends :
      (request : List ℕ) (s s' : S)
      → length request < 2 ^ 16
      → write_request dev request s ≡ ok s'
      → laws.outgoing s' ≡ laws.outgoing s ++ (hex 4 (length request) ++ request)
  unfolding write_request
  write_request_sends request s s' h e =
      let (s1, e1, e2) =
        >>=-eq-ok (dev.write_all (hex_4 (length request)) s) (λ (s1 : S). dev.write_all request s1)
          e in
      (laws.write request s1 s' e2).0
      ∙ ap (λ l. l ++ request) ((laws.write (hex_4 (length request)) s s1 e1).0)
      ∙ append_assoc (laws.outgoing s) (hex_4 (length request)) request
      ∙ ap (λ l. laws.outgoing s ++ (l ++ request)) (hex_4-short (length request) h)

  read_body :
      (body rest : List ℕ) (s : S)
      → laws.incoming s ≡ body ++ rest
      → (s' : S) × ((if ltb 0 (length body) then dev.read_exact (length body) s else ok ([], s))
          ≡ ok (body, s'))
        × (laws.incoming s' ≡ rest)
  read_body [] rest s e = (s, refl, e)
  read_body (b ∷ body) rest s e =
      let (s1, got, left, out) = read_front dev laws (b ∷ body) rest s e in
      (s1, if_true _ _ {b = ltb 0 (length (b ∷ body))} (ground arith) ∙ got, left)

  pub read_hex_payload_receives :
      (request rest : List ℕ) (s : S)
      → length request < 2 ^ 16
      → laws.incoming s ≡ hex 4 (length request) ++ (request ++ rest)
      → (s' : S) × (read_hex_payload dev s ≡ ok (request, s')) × (laws.incoming s' ≡ rest)
  unfolding read_hex_payload
  read_hex_payload_receives request rest s h e =
      let (s1, got, left, out) =
        read_front dev laws (hex 4 (length request)) (request ++ rest) s e in
      let header : dev.read_exact 4 s ≡ ok (hex 4 (length request), s1) =
        subst (λ n. dev.read_exact n s ≡ ok (hex 4 (length request), s1))
          (length-hex (length request)) got in
      let (s2, paid, left2) = read_body request rest s1 left in
      (s2, rw (header, is_utf8-hex (length request), from_hex-hex (length request) h) paid, left2)

-- A request of less than 65536 bytes that is written whole is read by its length prefix as the same
-- bytes, and not a byte more.
pub read_hex_payload-write_request :
    {S T : Type 0} (dev : AdbIo S) (laws : IoLaws dev) (peer : AdbIo T) (peer_laws : IoLaws peer)
    (request rest : List ℕ) (s s' : S) (t : T)
    → length request < 2 ^ 16
    → write_request dev request s ≡ ok s'
    → peer_laws.incoming t ≡ drop (length (laws.outgoing s)) (laws.outgoing s') ++ rest
    → (t' : T) × (read_hex_payload peer t ≡ ok (request, t')) × (peer_laws.incoming t' ≡ rest)
read_hex_payload-write_request dev laws peer peer_laws request rest s s' t h written arrives =
    let sent = write_request_sends dev laws request s s' h written in
    read_hex_payload_receives peer peer_laws request rest t h (
      arrives
      ∙ ap (λ l. drop (length (laws.outgoing s)) l ++ rest) sent
      ∙ ap (λ l. l ++ rest)
          (drop-append_length (laws.outgoing s) (hex 4 (length request) ++ request))
      ∙ append_assoc (hex 4 (length request)) request rest)
