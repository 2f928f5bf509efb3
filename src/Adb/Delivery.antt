-- ===== src/Adb/Delivery.antt =====
-- What the reader task does to one stream, and how data is cut.
use droidmirror.Base.{
  ℕ, zero, suc, ◌+◌, ◌≤◌, ◌≡◌, refl, sym, ap, subst, ◌∙◌, arith, Bool, true, false, ◌&&◌, Option,
  none, some, List, [], ◌∷◌, ◌++◌, ltb, ◌==◌, ==_iff, length, take, drop, flatten, if◌then◌else◌,
  append-nil, append_assoc, Bool-cases, if_true, ◌⊎◌, inl, inr, length-take, length-drop,
  take-append-drop, length-append,
}
use droidmirror.Base.Result.{Result, ok, ◌>>=◌, >>=-eq-ok}
use droidmirror.Base.Bytes.{All}
use droidmirror.Adb.Protocol.{Command, sync, cnxn, auth, open_, okay, clse, wrte, Packet, AdbError}
use droidmirror.Adb.Packets.{AdbIo, write_packet}
use droidmirror.Adb.Streams.{
  Shared, StreamSlot, Ack, channel_size, on_slot, set_remote, deliver, hang_up, answer, at_stream,
  route_command, route, chunks_from,
}

-- The bytes are cut into pieces of 1 to `size` bytes.
abbrev pub IsPiece : ℕ → List ℕ → Type 0
IsPiece size piece = (1 ≤ length piece) × (length piece ≤ size)

pub chunks_from_covers :
    (fuel size : ℕ) (bytes : List ℕ)
    → length bytes ≤ fuel
    → 1 ≤ size
    → (flatten (chunks_from fuel size bytes) ≡ bytes)
      × All (IsPiece size) (chunks_from fuel size bytes)
unfolding chunks_from
chunks_from_covers zero size [] h p = (refl, tt)
chunks_from_covers zero size (b ∷ bytes) h p = elim h [ ]
chunks_from_covers (suc fuel) size [] h p = (refl, tt)
chunks_from_covers (suc fuel) size (b ∷ bytes) h p =
    let (whole, pieces) =
      chunks_from_covers fuel size (drop size (b ∷ bytes))
        (omega (arith, length-drop size (b ∷ bytes))) p in
    (
      ap (λ l. take size (b ∷ bytes) ++ l) whole ∙ take-append-drop size (b ∷ bytes),
      (
        (omega (arith, length-take size (b ∷ bytes)), omega (arith, length-take size (b ∷ bytes))),
        pieces,
      ),
    )

-- The payloads that a device sends to one stream, up to its first `Clse`.
abbrev received_step : Command → Bool → List ℕ → List (List ℕ) → List (List ℕ)
received_step wrte true bytes later = bytes ∷ later
received_step clse true bytes later = []
received_step _ _ bytes later = later

abbrev pub received : ℕ → List (Packet × List ℕ) → List (List ℕ)
received id [] = []
received id ((pkt, bytes) ∷ ps) = received_step pkt.command (id == pkt.arg1) bytes (received id ps)

received_step-other :
    (c : Command) (bytes : List ℕ) (later : List (List ℕ))
    → received_step c false bytes later ≡ later
received_step-other wrte bytes later = refl
received_step-other clse bytes later = refl
received_step-other c bytes later = refl

-- What a packet does to the stream it names.
abbrev effect : Command → (arg0 : ℕ) → List ℕ → StreamSlot → StreamSlot
effect okay arg0 bytes slot = set_remote arg0 slot
effect wrte arg0 bytes slot = deliver bytes slot
effect clse arg0 bytes slot = hang_up slot
effect c arg0 bytes slot = slot

module _ {S : Type 0} (dev : AdbIo S) where
  at_stream-streams :
      (local : ℕ) (g : StreamSlot → StreamSlot) (sh : Shared S) (id : ℕ)
      → (at_stream local g sh).streams id
        ≡ (if id == local then on_slot g (sh.streams id) else sh.streams id)
  at_stream-streams local g sh id = elim (Bool-cases (id == local)) [
    | inl hit ↦
        let same : id ≡ local = (==_iff id local).0 hit in
        rw hit (ap (λ k. on_slot g (sh.streams k)) (sym same))
    | inr miss ↦ rw miss refl
  ]

  answer-streams :
      (local : ℕ) (ack : Ack) (sh : Shared S) → (answer local ack sh).streams ≡ sh.streams
  answer-streams local ack sh = elim (Bool-cases (sh.waiters local)) [
    | inl here ↦ rw here refl
    | inr gone ↦ rw gone refl
  ]

  id-streams :
      (id local : ℕ) (o : Option StreamSlot)
      → o ≡ (if id == local then on_slot (λ slot. slot) o else o)
  id-streams id local none = ground arith
  id-streams id local (some slot) = ground arith

  ok_same : {a b : Shared S} {r : Result AdbError (Shared S)} → r ≡ ok a → r ≡ ok b → a ≡ b
  ok_same e e' = cc

  route-streams :
      (command : Command) (remote local : ℕ) (bytes : List ℕ) (sh sh' : Shared S) (id : ℕ)
      → route_command dev command remote local bytes sh ≡ ok sh'
      → sh'.streams id ≡ (
          if id == local
          then on_slot (effect command remote bytes) (sh.streams id)
          else sh.streams id)
  unfolding route_command
  route-streams okay remote local bytes sh sh' id e =
      ap (λ t. t.streams id) (ok_same e refl)
      ∙ ap (λ m. m id) (answer-streams local _ (at_stream local (set_remote remote) sh))
      ∙ at_stream-streams local (set_remote remote) sh id
  route-streams wrte remote local bytes sh sh' id e =
      let (link', wrote, e2) = >>=-eq-ok (write_packet dev okay local remote [] sh.link) _ e in
      ap (λ t. t.streams id) (ok_same e2 refl)
      ∙ at_stream-streams local (deliver bytes) (record sh { link = link' }) id
  route-streams clse remote local bytes sh sh' id e =
      ap (λ t. t.streams id) (ok_same e refl)
      ∙ at_stream-streams local hang_up (answer local Ack.ack_closed sh) id
      ∙ ap (λ m. if id == local then on_slot hang_up (m id) else m id)
          (answer-streams local Ack.ack_closed sh)
  route-streams c remote local bytes sh sh' id e =
      ap (λ t. t.streams id) (ok_same e refl) ∙ id-streams id local (sh.streams id)

  -- The packets that the reader task takes, one after the other.
  abbrev pub route_all : List (Packet × List ℕ) → Shared S → Result AdbError (Shared S)
  route_all [] sh = ok sh
  route_all ((pkt, bytes) ∷ ps) sh = route dev pkt bytes sh >>= route_all ps

  slot_after :
      (pkt : Packet) (bytes : List ℕ) (sh sh' : Shared S) (id : ℕ) (slot : StreamSlot)
      → route dev pkt bytes sh ≡ ok sh'
      → sh.streams id ≡ some slot
      → sh'.streams id
        ≡ some (if id == pkt.arg1 then effect pkt.command pkt.arg0 bytes slot else slot)
  unfolding route
  slot_after pkt bytes sh sh' id slot e h =
      route-streams pkt.command pkt.arg0 pkt.arg1 bytes sh sh' id e
      ∙ ap (λ o. if id == pkt.arg1 then on_slot (effect pkt.command pkt.arg0 bytes) o else o) h
      ∙ pushed (id == pkt.arg1) (effect pkt.command pkt.arg0 bytes) slot
    where
      pushed :
          (b : Bool) (g : StreamSlot → StreamSlot) (slot : StreamSlot)
          → (if b then on_slot g (some slot) else some slot) ≡ some (if b then g slot else slot)
      pushed true g slot = refl
      pushed false g slot = refl

  -- A stream that is hung up gets nothing more.
  effect_closed :
      (c : Command) (remote : ℕ) (bytes : List ℕ) (b : Bool) (slot : StreamSlot)
      → slot.tx ≡ false
      → let slot' = if b then effect c remote bytes slot else slot in
        (slot'.tx ≡ false) × (slot'.queue ≡ slot.queue)
  effect_closed c remote bytes b slot h = ground arith

  route_all_closed :
      (ps : List (Packet × List ℕ)) (sh sh' : Shared S) (id : ℕ) (slot : StreamSlot)
      → route_all ps sh ≡ ok sh'
      → sh.streams id ≡ some slot
      → slot.tx ≡ false
      → (slot' : StreamSlot) × (sh'.streams id ≡ some slot') × (slot'.queue ≡ slot.queue)
  route_all_closed [] sh sh' id slot e h t =
      (slot, ap (λ s. s.streams id) (ok_same e refl) ∙ h, refl)
  route_all_closed ((pkt, bytes) ∷ ps) sh sh' id slot e h t =
      let (sh1, e1, e2) = >>=-eq-ok (route dev pkt bytes sh) (route_all ps) e in
      let (t1, q1) = effect_closed pkt.command pkt.arg0 bytes (id == pkt.arg1) slot t in
      let (slot', h', q') =
        route_all_closed ps sh1 sh' id _ e2 (slot_after pkt bytes sh sh1 id slot e1 h) t1 in
      (slot', h', q' ∙ q1)

  -- One packet of the stream's, or of another, while it is open and has room.
  effect_open :
      (c : Command) (remote : ℕ) (bytes : List ℕ) (b : Bool) (slot : StreamSlot)
      (later : List (List ℕ))
      → slot.tx ≡ true
      → length slot.queue + length (received_step c b bytes later) ≤ channel_size
      → let slot' = if b then effect c remote bytes slot else slot in
        ((slot'.tx ≡ false) × (slot'.queue ≡ slot.queue ++ received_step c b bytes later))
        ⊎ ((slot'.tx ≡ true)
            × (length slot'.queue + length later ≤ channel_size)
            × (slot'.queue ++ later ≡ slot.queue ++ received_step c b bytes later))
  effect_open okay remote bytes true slot later t h = ground (arith, h)
  effect_open wrte remote bytes true slot later t h =
      let room : (slot.tx && ltb (length slot.queue) channel_size) ≡ true = ground (arith, t, h) in
      let longer : length (slot.queue ++ (bytes ∷ [])) + length later ≤ channel_size =
        omega (arith, length-append slot.queue (bytes ∷ [])) in
      subst
        (λ s'.
          (s'.tx ≡ false × s'.queue ≡ slot.queue ++ (bytes ∷ later))
          ⊎ (s'.tx ≡ true
              × length s'.queue + length later ≤ channel_size
              × s'.queue ++ later ≡ slot.queue ++ (bytes ∷ later)))
        (sym (if_true (record slot { queue = slot.queue ++ (bytes ∷ []) }) slot room))
        (inr (t, longer, append_assoc slot.queue (bytes ∷ []) later))
  effect_open clse remote bytes true slot later t h = inl (refl, sym (append-nil slot.queue))
  effect_open sync remote bytes true slot later t h = inr (t, h, refl)
  effect_open cnxn remote bytes true slot later t h = inr (t, h, refl)
  effect_open auth remote bytes true slot later t h = inr (t, h, refl)
  effect_open open_ remote bytes true slot later t h = inr (t, h, refl)
  effect_open c remote bytes false slot later t h =
      let same = received_step-other c bytes later in
      inr (
        t,
        subst (λ l. length slot.queue + length l ≤ channel_size) same h,
        ap (λ l. slot.queue ++ l) (sym same),
      )

  -- A stream that is open and has room gets each payload that the device sends to it, in order, up to
  -- its `Clse`, whatever the packets to other streams are between them.
  pub route_all-received :
      (ps : List (Packet × List ℕ)) (sh sh' : Shared S) (id : ℕ) (slot : StreamSlot)
      → route_all ps sh ≡ ok sh'
      → sh.streams id ≡ some slot
      → slot.tx ≡ true
      → length slot.queue + length (received id ps) ≤ channel_size
      → (slot' : StreamSlot) × (sh'.streams id ≡ some slot')
        × (slot'.queue ≡ slot.queue ++ received id ps)
  route_all-received [] sh sh' id slot e h t r =
      (slot, ap (λ s. s.streams id) (ok_same e refl) ∙ h, sym (append-nil slot.queue))
  route_all-received ((pkt, bytes) ∷ ps) sh sh' id slot e h t r =
      let (sh1, e1, e2) = >>=-eq-ok (route dev pkt bytes sh) (route_all ps) e in
      let next = slot_after pkt bytes sh sh1 id slot e1 h in
      elim (effect_open pkt.command pkt.arg0 bytes (id == pkt.arg1) slot (received id ps) t r) [
        | inl (shut, q) ↦
            let (slot', h', q') = route_all_closed ps sh1 sh' id _ e2 next shut in
            (slot', h', q' ∙ q)
        | inr (opened, room, q) ↦
            let (slot', h', q') = route_all-received ps sh1 sh' id _ e2 next opened room in
            (slot', h', q' ∙ q)
      ]
