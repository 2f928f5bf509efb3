-- ===== src/Adb/Keys.antt =====
-- The opening exchange with a device that asks for a key and answers in time.
use droidmirror.Base.{
  ℕ, suc, ◌^◌, ◌≤◌, ◌<◌, ◌≡◌, refl, sym, ap, ◌∙◌, arith, Bool, true, false, some, List, [], ◌∷◌,
  ◌++◌, ◌==◌, length, append-nil, append_assoc,
}
use droidmirror.Base.Result.{ok}
use droidmirror.Base.Bytes.{All}
use droidmirror.Adb.Protocol.{
  cnxn, auth, Command, new, to_bytes, adb_version, adb_maxdata, cnxn_banner, auth_token,
  auth_signature, auth_rsapublickey,
}
use droidmirror.Adb.Packets.{IoLaws, write_packet, read_packet, max_payload}
use droidmirror.Adb.Exchange.{packet_bytes, read_packet_receives, write_packet_sends}
use droidmirror.Adb.Connect.{
  Read, Host, Banner, again, on_packet, turn, handshake_loop, with_key, with_hello, handshake,
  clamp_payload, trim_matches_nul,
}
use droidmirror.Adb.Login.{handshake_loop_done, handshake_loop_again}

-- Nothing fails and nothing is late: writes succeed, the deadline is ahead, reads end in time, and the
-- key signs.
pub record IsPrompt {S : Type 0} (host : Host S) : Type 0 where
  pub writes : (bs : List ℕ) (s : S) → (s' : S) × (host.dev.write_all bs s ≡ ok s')
  pub early : (s : S) → (host.left s == 0) ≡ false
  pub in_time : (n : ℕ) (f : S → Read S) (s : S) → host.within n f s ≡ some (f s)
  pub pubkey : List ℕ
  pub has_key : host.public_key ≡ ok pubkey
  pub sign : List ℕ → List ℕ
  pub signs : (token : List ℕ) → host.sign_token token ≡ ok (sign token)

-- What a device sends that asks with each token, then lets the host in.
abbrev pub device_bytes : List (List ℕ) → (version maxdata : ℕ) → List ℕ → List ℕ → List ℕ
device_bytes [] version maxdata banner rest = packet_bytes cnxn version maxdata banner ++ rest
device_bytes (t ∷ ts) version maxdata banner rest =
    packet_bytes auth auth_token 0 t ++ device_bytes ts version maxdata banner rest

module _ {S : Type 0} (host : Host S) (laws : IoLaws host.dev) (prompt : IsPrompt host) where
  -- The first token is signed; for each later one the public key is sent.
  abbrev pub replies : Bool → List (List ℕ) → List ℕ
  replies sent [] = []
  replies false (t ∷ ts) = packet_bytes auth auth_signature 0 (prompt.sign t) ++ replies true ts
  replies true (t ∷ ts) = packet_bytes auth auth_rsapublickey 0 prompt.pubkey ++ replies true ts

  write_packet_works :
      (command : Command) (arg0 arg1 : ℕ) (bytes : List ℕ) (s : S)
      → (s' : S) × (write_packet host.dev command arg0 arg1 bytes s ≡ ok s')
        × (laws.incoming s' ≡ laws.incoming s)
  unfolding write_packet
  write_packet_works command arg0 arg1 [] s =
      let (s1, e1) = prompt.writes (to_bytes (new command arg0 arg1 [])) s in
      (s1, rw e1 refl, (laws.write _ s s1 e1).1)
  write_packet_works command arg0 arg1 (b ∷ bytes) s =
      let (s1, e1) = prompt.writes (to_bytes (new command arg0 arg1 (b ∷ bytes))) s in
      let (s2, e2) = prompt.writes (b ∷ bytes) s1 in
      (s2, rw (e1, e2) refl, (laws.write _ s1 s2 e2).1 ∙ (laws.write _ s s1 e1).1)

  -- A turn in which a packet arrives.
  turn_reads :
      (command : Command) (arg0 arg1 : ℕ) (bytes rest : List ℕ) (sent : Bool) (s : S)
      → arg0 < 2 ^ 32
      → arg1 < 2 ^ 32
      → length bytes ≤ max_payload
      → laws.incoming s ≡ packet_bytes command arg0 arg1 bytes ++ rest
      → (s' : S) × (turn host prompt.pubkey sent s
          ≡ on_packet host prompt.pubkey sent (new command arg0 arg1 bytes) bytes s')
        × (laws.incoming s' ≡ rest)
        × (laws.outgoing s' ≡ laws.outgoing s)
  unfolding turn
  turn_reads command arg0 arg1 bytes rest sent s h0 h1 hl e =
      let (s1, got, left, out) =
        read_packet_receives host.dev laws command arg0 arg1 bytes rest s h0 h1 hl e in
      (
        s1,
        rw (prompt.early s, prompt.in_time (host.left s) (read_packet host.dev) s, got) refl,
        left,
        out,
      )

  -- A token that arrives is answered.
  turn_answers :
      (token rest : List ℕ) (sent : Bool) (s : S)
      → length token ≤ max_payload
      → laws.incoming s ≡ packet_bytes auth auth_token 0 token ++ rest
      → (s' : S) × (turn host prompt.pubkey sent s ≡ again true s')
        × (laws.incoming s' ≡ rest)
        × (laws.outgoing s' ≡ laws.outgoing s ++ replies sent (token ∷ []))
  unfolding on_packet
  turn_answers token rest false s hl e =
      let (s1, got, left, out) =
        turn_reads auth auth_token 0 token rest false s (omega arith) (omega arith) hl e in
      let sig = prompt.sign token in
      let (s2, wrote, kept) = write_packet_works auth auth_signature 0 sig s1 in
      let sent = write_packet_sends host.dev laws auth auth_signature 0 sig s1 s2 wrote in
      (
        s2,
        got ∙ rw (prompt.signs token, wrote) refl,
        kept ∙ left,
        sent
            ∙ ap (λ l. l ++ packet_bytes auth auth_signature 0 sig) out
            ∙ ap (λ l. laws.outgoing s ++ l)
                (sym (append-nil (packet_bytes auth auth_signature 0 sig))),
      )
  turn_answers token rest true s hl e =
      let (s1, got, left, out) =
        turn_reads auth auth_token 0 token rest true s (omega arith) (omega arith) hl e in
      let (s2, wrote, kept) = write_packet_works auth auth_rsapublickey 0 prompt.pubkey s1 in
      let sent =
        write_packet_sends host.dev laws auth auth_rsapublickey 0 prompt.pubkey s1 s2 wrote in
      (
        s2,
        got ∙ rw wrote refl,
        kept ∙ left,
        sent
            ∙ ap (λ l. l ++ packet_bytes auth auth_rsapublickey 0 prompt.pubkey) out
            ∙ ap (λ l. laws.outgoing s ++ l)
                (sym (append-nil (packet_bytes auth auth_rsapublickey 0 prompt.pubkey))),
      )

  -- What the host makes of the device's greeting.
  abbrev pub banner_of : (maxdata : ℕ) → List ℕ → Banner
  banner_of maxdata greeting = record {
    banner = trim_matches_nul (host.from_utf8_lossy greeting);
    max_payload = clamp_payload maxdata;
  }

  replies_front :
      (sent : Bool) (t : List ℕ) (ts : List (List ℕ))
      → replies sent (t ∷ []) ++ replies true ts ≡ replies sent (t ∷ ts)
  replies_front false t ts = ap (λ l. l ++ replies true ts) (append-nil _)
  replies_front true t ts = ap (λ l. l ++ replies true ts) (append-nil _)

  loop_login :
      (tokens : List (List ℕ)) (version maxdata : ℕ) (greeting rest : List ℕ) (sent : Bool) (s : S)
      → All (λ t. length t ≤ max_payload) tokens
      → version < 2 ^ 32
      → maxdata < 2 ^ 32
      → length greeting ≤ max_payload
      → laws.incoming s ≡ device_bytes tokens version maxdata greeting rest
      → (s' : S) × (handshake_loop (suc (length tokens)) host prompt.pubkey sent s
          ≡ some (ok (banner_of maxdata greeting, s')))
        × (laws.incoming s' ≡ rest)
        × (laws.outgoing s' ≡ laws.outgoing s ++ replies sent tokens)
  unfolding on_packet
  loop_login [] version maxdata greeting rest sent s ht hv hm hg e =
      let (s1, got, left, out) = turn_reads cnxn version maxdata greeting rest sent s hv hm hg e in
      (
        s1,
        handshake_loop_done 0 host prompt.pubkey sent s _ got,
        left,
        out ∙ sym (append-nil (laws.outgoing s)),
      )
  loop_login (t ∷ ts) version maxdata greeting rest sent s ht hv hm hg e =
      let (s1, got, left, out) =
        turn_answers t (device_bytes ts version maxdata greeting rest) sent s ht.0 e in
      let (s2, ran, left2, out2) =
        loop_login ts version maxdata greeting rest true s1 ht.1 hv hm hg left in
      (
        s2,
        handshake_loop_again (suc (length ts)) host prompt.pubkey sent s true s1 got ∙ ran,
        left2,
        out2
            ∙ ap (λ l. l ++ replies true ts) out
            ∙ append_assoc (laws.outgoing s) (replies sent (t ∷ [])) (replies true ts)
            ∙ ap (λ l. laws.outgoing s ++ l) (replies_front sent t ts),
      )

  -- When nothing fails or is late, a device that asks with any number of tokens and then lets the
  -- host in gets the host's greeting, one signature, of the first token, and the public key for each
  -- further token; the host then has the device's banner and the clamped payload size, and has
  -- taken no byte that follows. One turn of the loop for each token and one more are enough.
  pub handshake-device_bytes :
      (tokens : List (List ℕ)) (version maxdata : ℕ) (greeting rest : List ℕ) (s : S)
      → All (λ t. length t ≤ max_payload) tokens
      → version < 2 ^ 32
      → maxdata < 2 ^ 32
      → length greeting ≤ max_payload
      → laws.incoming s ≡ device_bytes tokens version maxdata greeting rest
      → (s' : S) × (handshake (suc (length tokens)) host s
          ≡ some (ok (banner_of maxdata greeting, s')))
        × (laws.incoming s' ≡ rest)
        × (laws.outgoing s'
            ≡ laws.outgoing s
              ++ (packet_bytes cnxn adb_version adb_maxdata cnxn_banner ++ replies false tokens))
  unfolding handshake
  handshake-device_bytes tokens version maxdata greeting rest s ht hv hm hg e =
      let (s1, wrote, kept) = write_packet_works cnxn adb_version adb_maxdata cnxn_banner s in
      let sent =
        write_packet_sends host.dev laws cnxn adb_version adb_maxdata cnxn_banner s s1 wrote in
      let (s2, ran, left, out) =
        loop_login tokens version maxdata greeting rest false s1 ht hv hm hg (kept ∙ e) in
      let fuel = suc (length tokens) in
      (
        s2,
        ap (λ hello. with_hello fuel host hello) wrote
            ∙ ap (λ key. with_key fuel host s1 key) prompt.has_key
            ∙ ran,
        left,
        out
            ∙ ap (λ l. l ++ replies false tokens) sent
            ∙ append_assoc (laws.outgoing s) (packet_bytes cnxn adb_version adb_maxdata cnxn_banner)
                (replies false tokens),
      )
