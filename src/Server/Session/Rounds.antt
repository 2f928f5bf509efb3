-- ===== src/Server/Session/Rounds.antt =====
-- Every round of the loop keeps the stream of pictures.
use droidmirror.Base.{
  ℕ, zero, suc, ◌-◌, ◌^◌, ◌<◌, ◌≡◌, refl, sym, subst, ◌∙◌, ◌⊎◌, arith, inl, inr, Bool, true, false,
  ◌||◌, not, Option, none, some, List, [], ◌∷◌, ltb, Bool-cases,
}
use droidmirror.Base.Result.{Result, ok, err}
use droidmirror.Base.Float.{Float}
use droidmirror.Base.Bytes.{All, IsByte}
use droidmirror.Proto.Types.{Message, ProtoError}
use droidmirror.Proto.Encode.{encode}
use droidmirror.Proto.IsTyped.{IsTyped}
use droidmirror.Server.Args.{ServerConfig}
use droidmirror.Server.Net.{NetError, SocketLaws, Written, read_some, poll_in}
use droidmirror.Server.Capture.{EncodedAu, Capture, DisplayInfo, MediaLaws, as_i32}
use droidmirror.Server.Capture.Whole.{IsWhole, poll-IsWhole, wait_csd-All, start-csd}
use droidmirror.Server.Session.{
  Flow, go, stop, starved, ◌>>=◌, Session, Phone, is_same, as_u16, frame_written, config_written,
  on_read, on_poll, read_input, refresh_params, frame_encoded, frame_polled, send_frame,
  config_encoded, restarted, reconfigure, display_read, check_display, turn, rounds,
}
use droidmirror.Server.Session.Stream.{
  IsPicture, IsConfigure, IsWholly, IsPart, Keeps, KeepsOrPart, Served, write_all-Keeps,
  write_all-KeepsOrPart,
}

-- What the phone's calls do: a connected socket, the framework's types, a clock that sends nothing,
-- and a client that has got nothing when it is accepted.
pub record PhoneLaws {N J I : Type 0} (phone : Phone N J I) : Type 0 where
  pub sock_laws : SocketLaws phone.sock
  pub media_laws : MediaLaws phone.media
  pub ticks : (w : N) → sock_laws.sent (phone.now_ns w).1 ≡ sock_laws.sent w
  pub accepts :
      (w w' : N) → phone.accept w ≡ (ok tt, w') → sock_laws.sent (phone.set_nonblock w') ≡ []

module _ {N J I : Type 0} (float : Float) (phone : Phone N J I) (fuel : ℕ)
    (laws : PhoneLaws phone) where
  open laws use {sock_laws}
  open sock_laws use {sent}

  -- The loop goes on with a `Configure` that is written in part.
  abbrev pub GoesOnInPart : (base : List ℕ) → Flow (Session N J I) → Type 0
  GoesOnInPart base (go s) = IsPart base (sent s.net)
  GoesOnInPart base (stop s) = ⊥
  GoesOnInPart base starved = ⊥

  -- In this round.
  abbrev pub CutsNow : ServerConfig → Session N J I → Type 0
  CutsNow cfg s =
      (s1 : Session N J I) × (s2 : Session N J I) × (read_input float phone fuel s ≡ go s1)
      × (send_frame float phone fuel (refresh_params float phone fuel s1) ≡ go s2)
      × GoesOnInPart (sent s2.net) (check_display float phone fuel cfg s2)

  -- In one of so many rounds.
  abbrev pub Cuts : ServerConfig → (n : ℕ) → Session N J I → Type 0
  Cuts cfg zero s = ⊥
  Cuts cfg (suc n) s =
      CutsNow cfg s ⊎ (s' : Session N J I) × (turn float phone fuel cfg s ≡ go s') × Cuts cfg n s'

module _ {N J I : Type 0} (float : Float) (phone : Phone N J I) (fuel : ℕ) (laws : PhoneLaws phone)
    (prefix : List ℕ) where
  open laws use {sock_laws, media_laws, ticks}
  open sock_laws use {sent, reads, polls}

  -- Whole messages so far, and codec data of bytes.
  abbrev pub IsGood : Session N J I → Type 0
  IsGood s = IsWholly prefix (sent s.net) × All IsByte s.capture.csd

  -- Where the loop has ended, the last message may be cut.
  abbrev pub IsGoodFlow : Flow (Session N J I) → Type 0
  IsGoodFlow (go s) = IsGood s
  IsGoodFlow (stop s) = Served prefix (sent s.net) × All IsByte s.capture.csd
  IsGoodFlow starved = Unit

  abbrev IsGoodOr : (base : List ℕ) → Flow (Session N J I) → Type 0
  IsGoodOr base r = IsGoodFlow r ⊎ GoesOnInPart float phone fuel laws base r

  >>=-IsGoodFlow :
      {X : Type 0} (r : Flow (Session N J I)) (f : Session N J I → Flow (Session N J I))
      → IsGoodFlow r
      → ((s : Session N J I) → r ≡ go s → IsGood s → IsGoodFlow (f s) ⊎ X)
      → IsGoodFlow (r >>= f) ⊎ X
  >>=-IsGoodFlow (go s) f h k = k s refl h
  >>=-IsGoodFlow (stop s) f h k = inl h
  >>=-IsGoodFlow starved f h k = inl tt

  -- A network that has sent the same.
  moved : (w w' : N) → sent w' ≡ sent w → IsWholly prefix (sent w) → IsWholly prefix (sent w')
  moved w w' es h = subst (IsWholly prefix) (sym es) h

  on_read-IsGood :
      (r : Result NetError (List ℕ)) (w : N) (s : Session N J I)
      → IsWholly prefix (sent w)
      → All IsByte s.capture.csd
      → IsGoodFlow (on_read float phone fuel (r, w) s)
  on_read-IsGood (ok []) w s (h, he) c = (h, c)
  on_read-IsGood (ok (b ∷ bs)) w s h c = (h, c)
  on_read-IsGood (err e) w s (h, he) c = (h, c)

  on_poll-IsGood :
      (r : Result NetError Bool) (w : N) (s : Session N J I)
      → IsWholly prefix (sent w)
      → All IsByte s.capture.csd
      → IsGoodFlow (on_poll float phone fuel (r, w) s)
  unfolding read_some
  on_poll-IsGood (ok true) w s h c = on_read-IsGood _ _ s (moved w _ (reads 65536 w) h) c
  on_poll-IsGood (ok false) w s h c = (h, c)
  on_poll-IsGood (err e) w s (h, he) c = (h, c)

  read_input-IsGood : (s : Session N J I) → IsGood s → IsGoodFlow (read_input float phone fuel s)
  unfolding read_input poll_in
  read_input-IsGood s (h, c) = on_poll-IsGood _ _ s (moved s.net _ (polls 5 s.net) h) c

  refresh_params-IsGood :
      (s : Session N J I) → IsGood s → IsGood (refresh_params float phone fuel s)
  unfolding refresh_params
  refresh_params-IsGood s h = h

  frame_written-IsGood :
      (s : Session N J I) (r : Written N)
      → Keeps phone.sock sock_laws prefix r
      → All IsByte s.capture.csd
      → IsGoodFlow (frame_written s r)
  frame_written-IsGood s none h c = tt
  frame_written-IsGood s (some (ok u, w)) h c = (h, c)
  frame_written-IsGood s (some (err e, w)) h c = (h, c)

  config_written-IsGood :
      (base : List ℕ) (s : Session N J I) (r : Written N)
      → KeepsOrPart phone.sock sock_laws prefix base r
      → All IsByte s.capture.csd
      → IsGoodOr base (config_written s r)
  config_written-IsGood base s none h c = inl tt
  config_written-IsGood base s (some (r, w)) (inl h) c = inl (h, c)
  config_written-IsGood base s (some (r, w)) (inr h) c = inr h

  frame_encoded-IsGood :
      (s : Session N J I) (au : EncodedAu) (r : Result ProtoError (List ℕ))
      → encode (Message.video_frame au.pts_us au.keyframe au.nal) ≡ r
      → IsWhole (some au)
      → IsGood s
      → IsGoodFlow (frame_encoded float phone fuel s r)
  frame_encoded-IsGood s au (err x) e t h = h
  frame_encoded-IsGood s au (ok bytes) e t (h, c) =
      frame_written-IsGood s _
        (write_all-Keeps phone.sock sock_laws fuel prefix
          (Message.video_frame au.pts_us au.keyframe au.nal) bytes s.net tt t e h)
        c

  frame_polled-IsGood :
      (s : Session N J I) (au : Option EncodedAu)
      → IsWhole au
      → IsGood s
      → IsGoodFlow (frame_polled float phone fuel s au)
  frame_polled-IsGood s none t h = h
  frame_polled-IsGood s (some au) t h = frame_encoded-IsGood s au _ refl t h

  send_frame-IsGood : (s : Session N J I) → IsGood s → IsGoodFlow (send_frame float phone fuel s)
  unfolding send_frame
  send_frame-IsGood s (h, c) =
      let (whole, csd) = poll-IsWhole phone.media media_laws 0 s.capture s.java c in
      frame_polled-IsGood _ _ whole (h, csd)

  config_encoded-IsGood :
      (s : Session N J I) (m : Message) (r : Result ProtoError (List ℕ))
      → encode m ≡ r
      → IsPicture m
      → IsConfigure m
      → IsTyped m
      → IsGood s
      → IsGoodOr (sent s.net) (config_encoded float phone fuel s r)
  config_encoded-IsGood s m (err x) e p i t h = inl h
  config_encoded-IsGood s m (ok bytes) e p i t (h, c) =
      config_written-IsGood (sent s.net) s _
        (write_all-KeepsOrPart phone.sock sock_laws fuel prefix m bytes s.net p i t e h) c

  restarted-IsGood :
      (cfg : ServerConfig) (w h : ℕ) (s : Session N J I) (r : Result (List ℕ) Capture) (j : J)
      → ((c : Capture) → r ≡ ok c → All IsByte c.csd)
      → IsGood s
      → IsGoodOr (sent s.net) (restarted float phone fuel cfg w h s (r, j))
  restarted-IsGood cfg w h s (err x) j e g = inl g
  restarted-IsGood cfg w h s (ok c) j e (g, old) =
      let (csd, kept) = wait_csd-All phone.media media_laws c j (e c refl) in
      let fits : (n : ℕ) → as_u16 n < 2 ^ 16 = λ (n : ℕ). omega arith in
      config_encoded-IsGood _ _ _ refl tt tt (fits w, fits h, csd) (g, kept)

  reconfigure-IsGood :
      (cfg : ServerConfig) (w h : ℕ) (s : Session N J I)
      → IsGood s
      → IsGoodOr (sent s.net) (reconfigure float phone fuel cfg w h s)
  unfolding reconfigure
  reconfigure-IsGood cfg w h s g =
      restarted-IsGood cfg w h s _ _
        (start-csd phone.media (as_i32 w) (as_i32 h) cfg.bitrate cfg.max_fps cfg.h265 _) g

  display_read-IsGood :
      (cfg : ServerConfig) (s : Session N J I) (r : Result (List ℕ) DisplayInfo) (j : J)
      → IsGood s
      → IsGoodOr (sent s.net) (display_read float phone fuel cfg s (r, j))
  display_read-IsGood cfg s (err e) j g = inl g
  display_read-IsGood cfg s (ok info) j g =
      elim (Bool-cases (
        not (is_same info.rotation s.rotation)
        || (not (is_same info.width s.seen_w) || not (is_same info.height s.seen_h)))) [
          | inl new ↦ rw new (reconfigure-IsGood cfg _ _ _ g)
          | inr same ↦ rw same (inl g)
        ]

  check_display-IsGood :
      (cfg : ServerConfig) (s : Session N J I)
      → IsGood s
      → IsGoodOr (sent s.net) (check_display float phone fuel cfg s)
  unfolding check_display
  check_display-IsGood cfg s (g, c) =
      let (now, w) = phone.now_ns s.net in
      let (again, w') = phone.now_ns w in
      let same : sent w' ≡ sent s.net = ticks w ∙ ticks s.net in
      let s1 : Session N J I = record s { net = w'; last_rot = again } in
      let (r, j) = phone.media.display_info s.java in
      elim (Bool-cases (ltb 500_000_000 (now - s.last_rot))) [
        | inl due ↦ rw due (
            subst (λ l. IsGoodOr l (display_read float phone fuel cfg s1 (r, j))) same
              (display_read-IsGood cfg s1 r j (moved s.net w' same g, c)))
        | inr early ↦ rw early (inl (moved s.net w (ticks s.net) g, c))
      ]

  turn-IsGood :
      (cfg : ServerConfig) (s : Session N J I)
      → IsGood s
      → IsGoodFlow (turn float phone fuel cfg s) ⊎ CutsNow float phone fuel laws cfg s
  unfolding turn
  turn-IsGood cfg s g = >>=-IsGoodFlow _ _ (read_input-IsGood s g) (λ s1 e1 g1.
      >>=-IsGoodFlow _ _ (send_frame-IsGood _ (refresh_params-IsGood s1 g1)) (λ s2 e2 g2.
        elim (check_display-IsGood cfg s2 g2) [
          | inl good ↦ inl good
          | inr part ↦ inr (s1, s2, e1, e2, part)
        ]))

  -- Any number of rounds keeps the stream, unless one of them goes on behind a `Configure` that is
  -- written in part.
  pub rounds-IsGood :
      (cfg : ServerConfig) (n : ℕ) (s : Session N J I)
      → IsGood s
      → IsGoodFlow (rounds float phone fuel cfg n s) ⊎ Cuts float phone fuel laws cfg n s
  unfolding rounds
  rounds-IsGood cfg zero s g = inl g
  rounds-IsGood cfg (suc n) s g = elim (turn-IsGood cfg s g) [
    | inr cut ↦ inr (inl cut)
    | inl good ↦
        >>=-IsGoodFlow (turn float phone fuel cfg s) (rounds float phone fuel cfg n) good
          (λ s1 e1 g1. elim (rounds-IsGood cfg n s1 g1) [
            | inl later ↦ inl later
            | inr cut ↦ inr (inr (s1, e1, cut))
          ])
  ]
