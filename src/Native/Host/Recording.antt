-- ===== src/Native/Host/Recording.antt =====
-- When a recorder is open, and of what.
use droidmirror.Base.{
  ℕ, ◌≡◌, refl, sym, ap₂, subst, ◌∙◌, arith, Bool, true, false, Option, none, some, List, [], ◌∷◌,
  Bool-cases, inl, inr,
}
use droidmirror.Base.Result.{Result, ok, err}
use droidmirror.Base.Float.{Float}
use droidmirror.Proto.Types.{Codec, h264, h265}
use droidmirror.Client.State.{Out}
use droidmirror.Native.Window.{HostCmd, record_mp4, quit, encode_cmd}
use droidmirror.Native.Host.{
  VideoCfg, Outside, HostSession, is_h264, same_codec, started, open_mp4, finish_mp4, with_rec,
  open_if, open_unless, set_recording, is_changed, open_if_on, on_configure, push_rec, on_frame,
  on_out, on_outs, on_chunk, Turn, goes, ends, fails, written, send_cmd, on_cmd, Input, cmd,
  no_more_cmds, chunk, read_failed, on_input, turned, session,
}

-- A recorder keeps the size that it is started with.
pub record RecLaws {R S : Type 0} (out : Outside R S) : Type 0 where
  pub size : R → ℕ × ℕ
  pub starts :
      (width height : ℕ) (csd : List ℕ) (s s' : S) (r : R)
      → out.start width height csd s ≡ (ok r, s')
      → size r ≡ (width, height)
  pub pushes :
      (pts_us : ℕ) (keyframe : Bool) (nal : List ℕ) (r : R)
      → size (out.push pts_us keyframe nal r) ≡ size r

module _ {R S : Type 0} (f : Float) (out : Outside R S) (laws : RecLaws out) where
  open laws use {size, starts, pushes}

  -- Settings of H.264 in the recorder's size.
  abbrev pub FitsCfg : Option VideoCfg → R → Type 0
  FitsCfg none r = ⊥
  FitsCfg (some c) r = (is_h264 c.codec ≡ true) × (size r ≡ (c.width, c.height))

  -- With no recorder there is nothing to keep.
  abbrev pub Fits : Bool → Option VideoCfg → Option R → Type 0
  Fits on cfg none = Unit
  Fits on cfg (some r) = (on ≡ true) × FitsCfg cfg r

  abbrev pub IsRecording : HostSession R S → Type 0
  IsRecording h = Fits h.mp4_on h.video_cfg h.mp4

  started-Fits :
      (cfg : VideoCfg) (h : HostSession R S) (r : Result (List ℕ) R) (s' : S)
      → h.mp4_on ≡ true
      → h.video_cfg ≡ some cfg
      → is_h264 cfg.codec ≡ true
      → out.start cfg.width cfg.height cfg.csd h.outside ≡ (r, s')
      → IsRecording (with_rec f out h (started f out (r, s')))
  started-Fits cfg h (ok r) s' on c k e = (
    on,
    subst (λ o. FitsCfg o r) (sym c) (k, starts cfg.width cfg.height cfg.csd h.outside s' r e),
  )
  started-Fits cfg h (err x) s' on c k e = tt

  open_if-Fits :
      (cfg : Option VideoCfg) (h : HostSession R S)
      → h.mp4_on ≡ true
      → h.mp4 ≡ none
      → h.video_cfg ≡ cfg
      → IsRecording (open_if f out cfg h)
  unfolding open_mp4
  open_if-Fits none h on m c = subst (Fits h.mp4_on h.video_cfg) (sym m) tt
  open_if-Fits (some cfg) h on m c = elim (Bool-cases (is_h264 cfg.codec)) [
    | inl k ↦ rw k (started-Fits cfg h _ _ on c k refl)
    | inr k ↦ rw k tt
  ]

  open_unless-Fits :
      (m : Option R) (h : HostSession R S)
      → h.mp4 ≡ m
      → h.mp4_on ≡ true
      → IsRecording h
      → IsRecording (open_unless f out m h)
  open_unless-Fits none h m on i = open_if-Fits h.video_cfg h on m refl
  open_unless-Fits (some r) h m on i = i

  switch_on : (h : HostSession R S) → IsRecording h → Fits true h.video_cfg h.mp4
  switch_on h i = go h.mp4 i
    where
      go : (m : Option R) → Fits h.mp4_on h.video_cfg m → Fits true h.video_cfg m
      go none k = tt
      go (some r) (on, k) = (refl, k)

  set_recording-Fits :
      (on : Bool) (h : HostSession R S) → IsRecording h → IsRecording (set_recording f out on h)
  unfolding set_recording finish_mp4
  set_recording-Fits true h i = open_unless-Fits h.mp4 _ refl refl (switch_on h i)
  set_recording-Fits false h i = tt

  open_if_on-Fits :
      (on : Bool) (h : HostSession R S)
      → h.mp4_on ≡ on
      → IsRecording h
      → IsRecording (open_if_on f out on h)
  open_if_on-Fits true h on i = open_unless-Fits h.mp4 h refl on i
  open_if_on-Fits false h on i = i

  same_codec-h264 : (a b : Codec) → same_codec a b ≡ true → is_h264 a ≡ is_h264 b
  same_codec-h264 h264 h264 e = refl
  same_codec-h264 h265 h265 e = refl
  same_codec-h264 h264 h265 e = cc
  same_codec-h264 h265 h264 e = cc

  -- Settings that have not changed fit as those before them did.
  unchanged-Fits :
      (on : Bool) (before : Option VideoCfg) (cfg : VideoCfg) (m : Option R)
      → is_changed f out before cfg.codec cfg.width cfg.height ≡ false
      → Fits on before m
      → Fits on (some cfg) m
  unchanged-Fits on before cfg none e i = tt
  unchanged-Fits on none cfg (some r) e (o, i) = elim i [ ]
  unchanged-Fits on (some c) cfg (some r) e (o, (k, s)) =
      let w : c.width ≡ cfg.width = ground (arith, e) in
      let h : c.height ≡ cfg.height = ground (arith, e) in
      let same : same_codec c.codec cfg.codec ≡ true = ground (arith, e) in
      (o, (sym (same_codec-h264 c.codec cfg.codec same) ∙ k, s ∙ ap₂ (λ a b. (a, b)) w h))

  on_configure-Fits :
      (codec : Codec) (csd : List ℕ) (width height : ℕ) (h : HostSession R S)
      → IsRecording h
      → IsRecording (on_configure f out codec csd width height h)
  unfolding on_configure finish_mp4
  on_configure-Fits codec csd width height h i =
      let cfg : VideoCfg = record { codec = codec; csd = csd; width = width; height = height } in
      elim (Bool-cases (is_changed f out h.video_cfg codec width height)) [
        | inl new ↦ rw new (open_if_on-Fits h.mp4_on _ refl tt)
        | inr same ↦
            rw same (
              open_if_on-Fits h.mp4_on _ refl
                (unchanged-Fits h.mp4_on h.video_cfg cfg h.mp4 same i))
      ]

  push_rec-Fits :
      (pts_us : ℕ) (keyframe : Bool) (nal : List ℕ) (on : Bool) (cfg : Option VideoCfg)
      (m : Option R)
      → Fits on cfg m
      → Fits on cfg (push_rec f out pts_us keyframe nal m)
  push_rec-Fits p k n on cfg none i = tt
  push_rec-Fits p k n on none (some r) (o, i) = elim i [ ]
  push_rec-Fits p k n on (some c) (some r) (o, (i, s)) = (o, (i, pushes p k n r ∙ s))

  on_outs-Fits :
      (os : List Out) (h : HostSession R S) → IsRecording h → IsRecording (on_outs f out os h)
  unfolding on_outs on_out on_frame
  on_outs-Fits [] h i = i
  on_outs-Fits (Out.device_name name ∷ os) h i = on_outs-Fits os h i
  on_outs-Fits (Out.configure codec csd width height ∷ os) h i =
      on_outs-Fits os _ (on_configure-Fits codec csd width height h i)
  on_outs-Fits (Out.frame pts_us keyframe nal ∷ os) h i =
      on_outs-Fits os _ (push_rec-Fits pts_us keyframe nal h.mp4_on h.video_cfg h.mp4 i)
  on_outs-Fits (Out.error text ∷ os) h i = on_outs-Fits os h i

  -- A loop that goes on keeps the recorder's fit, and one that has ended has closed it.
  abbrev pub Closes : Turn f out → Type 0
  Closes (goes h) = IsRecording h
  Closes (ends h) = h.mp4 ≡ none
  Closes (fails e) = Unit

  -- Before the recording is finished.
  abbrev Keeps : Turn f out → Type 0
  Keeps (goes h) = IsRecording h
  Keeps (ends h) = Unit
  Keeps (fails e) = Unit

  send_cmd-Keeps :
      (bytes : List ℕ) (h : HostSession R S) → IsRecording h → Keeps (send_cmd f out bytes h)
  send_cmd-Keeps [] h i = i
  send_cmd-Keeps (b ∷ bs) h i = sent (out.write_stream (b ∷ bs) h.outside)
    where
      sent : (r : Result (List ℕ) S) → Keeps (written f out h r)
      sent (ok s) = i
      sent (err e) = tt

  on_cmd-Keeps :
      (c : HostCmd f.F32) (h : HostSession R S) → IsRecording h → Keeps (on_cmd f out c h)
  unfolding on_cmd
  on_cmd-Keeps quit h i = tt
  on_cmd-Keeps (record_mp4 on) h i = set_recording-Fits on h i
  on_cmd-Keeps c h i = send_cmd-Keeps (encode_cmd f h.client c) h i

  on_input-Keeps :
      (i : Input f out) (h : HostSession R S) → IsRecording h → Keeps (on_input f out i h)
  unfolding on_input on_chunk
  on_input-Keeps (cmd c) h k = on_cmd-Keeps c h k
  on_input-Keeps no_more_cmds h k = tt
  on_input-Keeps (chunk []) h k = tt
  on_input-Keeps (chunk (b ∷ bs)) h k = on_outs-Fits _ _ k
  on_input-Keeps (read_failed e) h k = tt

  turned-Closes :
      (again : HostSession R S → Turn f out) (t : Turn f out)
      → ((h : HostSession R S) → IsRecording h → Closes (again h))
      → Keeps t
      → Closes (turned f out again t)
  unfolding finish_mp4
  turned-Closes again (goes h) later k = later h k
  turned-Closes again (ends h) later k = refl
  turned-Closes again (fails e) later k = tt

-- Over any sequence of commands and chunks: a recorder is open only while recording is switched on,
-- and only of H.264 in the size of the settings in force; and a loop that is left by `break` has
-- closed it.
pub session-Closes :
    {R S : Type 0} (f : Float) (out : Outside R S) (laws : RecLaws out) (is : List (Input f out))
    (h : HostSession R S)
    → IsRecording f out laws h
    → Closes f out laws (session f out is h)
unfolding session
session-Closes f out laws [] h k = k
session-Closes f out laws (i ∷ is) h k =
    turned-Closes f out laws (session f out is) (on_input f out i h) (session-Closes f out laws is)
      (on_input-Keeps f out laws i h k)
