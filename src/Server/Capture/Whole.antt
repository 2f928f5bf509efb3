-- ===== src/Server/Capture/Whole.antt =====
-- What `poll` and `wait_csd` give: bytes, with a presentation time that fits its field.
use Prim.Native.Nat.{bit_and}
use droidmirror.Base.{
  ℕ, zero, suc, ◌^◌, ◌<◌, ◌≡◌, sym, ap, subst, arith, Bool, not, Option, none, some, List, [], ◌∷◌,
  ◌==◌, Bool-cases, Option-cases, inl, inr,
}
use droidmirror.Base.Result.{Result, ok, err}
use droidmirror.Base.Int.{ℤ, pos, negsuc}
use droidmirror.Base.Bytes.{All, IsByte}
use droidmirror.Proto.AnnexB.{is_empty}
use droidmirror.Proto.AnnexB.Kept.{to_annex_b-All, csd_annex_b-All}
use droidmirror.Server.Capture.{
  EncodedAu, Capture, created, start, Media, MediaLaws, unwrap_or, is_positive, max_zero, set_csd,
  csd_keys, with_format, format_parts, read_format_csd, take_bytes, output_bytes, take_output,
  dequeued, poll, wait_loop, wait_csd,
}

-- An access unit that a `VideoFrame` can carry.
abbrev pub IsWhole : Option EncodedAu → Type 0
IsWhole none = Unit
IsWhole (some au) = (au.pts_us < 2 ^ 64) × All IsByte au.nal

module _ {J : Type 0} (media : Media J) (laws : MediaLaws media) where
  open laws use {copied, formatted, time}

  set_csd-All :
      (parts : List (List ℕ)) (c : Capture)
      → All (All IsByte) parts
      → All IsByte c.csd
      → All IsByte (set_csd parts c).csd
  set_csd-All [] c hp hc = hc
  set_csd-All (part ∷ parts) c hp hc = csd_annex_b-All (part ∷ parts) hp

  format_parts-All : (keys : List (List ℕ)) (j : J) → All (All IsByte) (format_parts media keys j).0
  format_parts-All [] j = tt
  format_parts-All (key ∷ keys) j =
      let rest = format_parts-All keys (media.format_bytes key j).1 in
      elim (Option-cases (media.format_bytes key j).0) [
        | inl e ↦ rw e rest
        | inr (part, e) ↦ rw e (formatted key j part e, rest)
      ]

  with_format-All :
      (c : Capture) (r : Result (List ℕ) (Unit {0})) (j : J)
      → All IsByte c.csd
      → All IsByte (with_format media c (r, j)).0.csd
  with_format-All c (err e) j h = h
  with_format-All c (ok u) j h = set_csd-All _ c (format_parts-All csd_keys j) h

  output_bytes-All : (index : ℤ) (j : J) → All IsByte (output_bytes media index j).0
  output_bytes-All index j = elim (Bool-cases (is_positive (unwrap_or (media.size j) (pos 0)))) [
    | inr empty ↦ rw empty tt
    | inl full ↦
        let o = unwrap_or (media.offset j) (pos 0) in
        let s = unwrap_or (media.size j) (pos 0) in
        rw full (elim (Option-cases (media.copy_output index o s j).0) [
          | inl e ↦ rw e tt
          | inr (bytes, e) ↦ rw e (copied index o s j bytes e)
        ])
  ]

  time-lt : (j : J) → max_zero (unwrap_or (media.presentation_time_us j) (pos 0)) < 2 ^ 64
  time-lt j = elim (Option-cases (media.presentation_time_us j)) [
    | inl e ↦ rw e (omega arith)
    | inr (pos n, e) ↦ rw e (omega (arith, time j n e))
    | inr (negsuc n, e) ↦ rw e (omega arith)
  ]

  take_bytes-IsWhole :
      (flags pts : ℕ) (bytes : List ℕ) (c : Capture)
      → pts < 2 ^ 64
      → All IsByte bytes
      → All IsByte c.csd
      → IsWhole (take_bytes flags pts bytes c).0 × All IsByte (take_bytes flags pts bytes c).1.csd
  take_bytes-IsWhole flags pts bytes c ht hb hc = elim (Bool-cases (not (bit_and flags 2 == 0))) [
    | inl config ↦ rw config (
      tt,
      elim (Bool-cases (is_empty bytes)) [
        | inl e ↦ rw e hc
        | inr e ↦ rw e (to_annex_b-All bytes hb)
      ],
    )
    | inr unit ↦ rw unit (elim (Bool-cases (is_empty bytes)) [
      | inl e ↦ rw e (tt, hc)
      | inr e ↦ rw e ((ht, to_annex_b-All bytes hb), hc)
    ])
  ]

  take_output-IsWhole :
      (index : ℤ) (c : Capture) (j : J)
      → All IsByte c.csd
      → IsWhole (take_output media index c j).0 × All IsByte (take_output media index c j).1.0.csd
  unfolding take_output
  take_output-IsWhole index c j h =
      take_bytes-IsWhole _ _ _ c (time-lt j) (output_bytes-All index j) h

  dequeued-IsWhole :
      (c : Capture) (r : Option (Option ℤ)) (j : J)
      → All IsByte c.csd
      → IsWhole (dequeued media c (r, j)).0 × All IsByte (dequeued media c (r, j)).1.0.csd
  unfolding read_format_csd
  dequeued-IsWhole c none j h = (tt, h)
  dequeued-IsWhole c (some none) j h = (tt, h)
  dequeued-IsWhole c (some (some (pos n))) j h = take_output-IsWhole (pos n) c j h
  dequeued-IsWhole c (some (some (negsuc zero))) j h = (tt, h)
  dequeued-IsWhole c (some (some (negsuc (suc zero)))) j h = (tt, with_format-All c _ _ h)
  dequeued-IsWhole c (some (some (negsuc (suc (suc n))))) j h = (tt, h)

  -- A poll gives an access unit of bytes, or none, and leaves codec data of bytes.
  pub poll-IsWhole :
      (timeout_us : ℕ) (c : Capture) (j : J)
      → All IsByte c.csd
      → IsWhole (poll media timeout_us c j).0 × All IsByte (poll media timeout_us c j).1.0.csd
  unfolding poll
  poll-IsWhole timeout_us c j h = elim (Bool-cases c.settings.paused) [
    | inl e ↦ simp e (tt, h)
    | inr e ↦ simp e (dequeued-IsWhole c _ _ h)
  ]

  wait_loop-All :
      (n : ℕ) (c : Capture) (j : J) → All IsByte c.csd → All IsByte (wait_loop media n c j).0.csd
  unfolding wait_loop
  wait_loop-All zero c j h = h
  wait_loop-All (suc n) c j h =
      let polled = (poll-IsWhole 50000 c j h).1 in
      elim (Bool-cases (is_empty (poll media 50000 c j).1.0.csd)) [
        | inl e ↦ rw e (wait_loop-All n _ _ polled)
        | inr e ↦ rw e polled
      ]

  pub wait_csd-All :
      (c : Capture) (j : J)
      → All IsByte c.csd
      → All IsByte (wait_csd media c j).0 × All IsByte (wait_csd media c j).1.0.csd
  unfolding wait_csd
  wait_csd-All c j h = let w = wait_loop-All 40 c j h in (w, w)

created-csd :
    {J : Type 0} (c0 c : Capture) (r : Result (List ℕ) (Unit {0})) (j : J)
    → (created c0 (r, j)).0 ≡ ok c
    → c.csd ≡ c0.csd
created-csd c0 c (ok u) j e = let same : c0 ≡ c = cc in sym (ap (λ (d : Capture). d.csd) same)
created-csd c0 c (err x) j e = cc

module _ {J : Type 0} (media : Media J) where
  -- A new capture has no codec data yet.
  pub start-csd :
      (w h : ℤ) (bitrate fps : ℕ) (hevc : Bool) (j : J) (c : Capture)
      → (start media w h bitrate fps hevc j).0 ≡ ok c
      → All IsByte c.csd
  unfolding start
  start-csd w h bitrate fps hevc j c e = subst (All IsByte) (sym (created-csd _ c _ _ e)) tt
