-- ===== src/Native/Mp4/Samples.antt =====
-- The samples of a recording, by the frames that are pushed.
use droidmirror.Base.{
  ℕ, ◌+◌, ◌-◌, ◌/◌, ◌≡◌, refl, sym, ap, ◌∙◌, Bool, true, false, ◌&&◌, ◌||◌, not, Option, none, some,
  List, [], ◌∷◌, ◌++◌, ◌==◌, map, append-nil, append_assoc, if◌then◌else◌, Bool-cases, inl, inr,
}
use droidmirror.Base.Result.{Result, ok, err, ◌>>=◌, >>=-eq-ok}
use droidmirror.Proto.AnnexB.{is_empty}
use droidmirror.Native.Nals.{nals, avcc_sample}
use droidmirror.Native.Mp4.{
  PendingSample, Mp4Sample, Mp4Rec, Mp4Writer, clamp_duration, any_idr, new_rec, write_sample,
  flush, push_sample, push, finish, start, with_sets,
}

-- A writer appends its samples to the file, and the trailer none.
pub record WriterLaws {W : Type 0} (mp4 : Mp4Writer W) : Type 0 where
  pub in_file : W → List Mp4Sample
  pub started :
      (width height : ℕ) (sps pps : List ℕ) (w : W)
      → mp4.write_start width height sps pps ≡ ok w
      → in_file w ≡ []
  pub appended :
      (s : Mp4Sample) (w w' : W) → mp4.write_sample s w ≡ ok w' → in_file w' ≡ in_file w ++ (s ∷ [])
  pub ended : (w w' : W) → mp4.write_end w ≡ ok w' → in_file w' ≡ in_file w

-- The frames of a recording: from the first one with an IDR on, those that have data for a sample.
abbrev pub recorded : (waits : Bool) → List (ℕ × Bool × List ℕ) → List (List ℕ)
recorded waits [] = []
recorded waits ((pts_us, keyframe, nal) ∷ frames) =
    let idr = keyframe || any_idr (nals nal) in
    let skipped = recorded waits frames in
    let taken = avcc_sample nal ∷ recorded false frames in
    if waits && not idr then skipped else if is_empty (avcc_sample nal) then skipped else taken

abbrev pub bytes_of : List Mp4Sample → List (List ℕ)
bytes_of l = map (λ (s : Mp4Sample). s.bytes) l

abbrev pub pending_bytes : Option PendingSample → List (List ℕ)
pending_bytes none = []
pending_bytes (some p) = p.bytes ∷ []

map-append : (l m : List Mp4Sample) → bytes_of (l ++ m) ≡ bytes_of l ++ bytes_of m
map-append [] m = refl
map-append (x ∷ l) m = ap (λ k. x.bytes ∷ k) (map-append l m)

-- Frames one after the other.
abbrev pub push_all :
    {W : Type 0} → Mp4Writer W → List (ℕ × Bool × List ℕ) → Mp4Rec W → Result (List ℕ) (Mp4Rec W)
push_all mp4 [] rec = ok rec
push_all mp4 ((pts_us, keyframe, nal) ∷ frames) rec =
    push mp4 pts_us keyframe nal rec >>= λ r. push_all mp4 frames r

module _ {W : Type 0} (mp4 : Mp4Writer W) (laws : WriterLaws mp4) where
  open laws use {in_file, appended, ended}

  -- The data in the file, and what waits.
  abbrev sample_bytes : Mp4Rec W → List (List ℕ)
  sample_bytes rec = bytes_of (in_file rec.writer) ++ pending_bytes rec.pending

  flush-keeps :
      (dur : ℕ → ℕ) (o : Option PendingSample) (rec r : Mp4Rec W)
      → flush mp4 dur o rec ≡ ok r
      → (bytes_of (in_file r.writer) ≡ bytes_of (in_file rec.writer) ++ pending_bytes o)
        × (r.wait_idr ≡ rec.wait_idr)
  unfolding write_sample
  flush-keeps dur none rec r e =
      let same : rec ≡ r = cc in
      (
        ap (λ (x : Mp4Rec W). bytes_of (in_file x.writer)) (sym same) ∙ sym (append-nil _),
        ap (λ (x : Mp4Rec W). x.wait_idr) (sym same),
      )
  flush-keeps dur (some p) rec r e =
      let rec1 : Mp4Rec W = record rec { pending = none } in
      let sample : Mp4Sample = record {
        start_time = p.pts_us / 1000;
        duration = clamp_duration (dur p.pts_us);
        is_sync = p.keyframe;
        bytes = p.bytes;
      } in
      let next : W → Result (List ℕ) (Mp4Rec W) =
        λ w. ok (record rec1 { writer = w; samples = rec1.samples + 1 }) in
      let (w, e1, e2) = >>=-eq-ok (mp4.write_sample sample rec.writer) next e in
      let same : record rec1 { writer = w; samples = rec1.samples + 1 } ≡ r = cc in
      (
        ap (λ (x : Mp4Rec W). bytes_of (in_file x.writer)) (sym same)
            ∙ ap bytes_of (appended sample rec.writer w e1)
            ∙ map-append (in_file rec.writer) (sample ∷ []),
        ap (λ (x : Mp4Rec W). x.wait_idr) (sym same),
      )

  push_sample-keeps :
      (p : PendingSample) (rec r : Mp4Rec W)
      → push_sample mp4 p rec ≡ ok r
      → (sample_bytes r ≡ sample_bytes rec ++ (p.bytes ∷ [])) × (r.wait_idr ≡ false)
  unfolding push_sample
  push_sample-keeps p rec r e =
      let dur : ℕ → ℕ = λ before. (p.pts_us - before) / 1000 in
      let next : Mp4Rec W → Result (List ℕ) (Mp4Rec W) =
        λ r1. ok (record r1 { pending = some p }) in
      let (r1, e1, e2) =
        >>=-eq-ok (flush mp4 dur rec.pending (record rec { wait_idr = false })) next e in
      let (bytes, wait) = flush-keeps dur rec.pending (record rec { wait_idr = false }) r1 e1 in
      let same : record r1 { pending = some p } ≡ r = cc in
      (
        ap sample_bytes (sym same) ∙ ap (λ l. l ++ (p.bytes ∷ [])) bytes,
        ap (λ (x : Mp4Rec W). x.wait_idr) (sym same) ∙ wait,
      )

  -- The samples so far, and what is recorded of the frames to come.
  abbrev whole_recording : List (ℕ × Bool × List ℕ) → Mp4Rec W → List (List ℕ)
  whole_recording frames rec = sample_bytes rec ++ recorded rec.wait_idr frames

  push-keeps :
      (pts_us : ℕ) (keyframe : Bool) (nal : List ℕ) (frames : List (ℕ × Bool × List ℕ))
      (rec r : Mp4Rec W)
      → push mp4 pts_us keyframe nal rec ≡ ok r
      → whole_recording frames r ≡ whole_recording ((pts_us, keyframe, nal) ∷ frames) rec
  unfolding push
  push-keeps pts_us keyframe nal frames rec r e =
      elim (Bool-cases (rec.wait_idr && not (keyframe || any_idr (nals nal)))) [
        | inl skip ↦
            let e1 = rw skip at e in
            let same : rec ≡ r = cc in rw skip (ap (whole_recording frames) (sym same))
        | inr taken ↦ elim (Bool-cases (is_empty (avcc_sample nal))) [
          | inl no_data ↦
              let e1 = rw (taken, no_data) at e in
              let same : rec ≡ r = cc in
              rw (taken, no_data) (ap (whole_recording frames) (sym same))
          | inr data_left ↦
              let idr = keyframe || any_idr (nals nal) in
              let p : PendingSample = record {
                pts_us = pts_us;
                keyframe = idr;
                bytes = avcc_sample nal;
              } in
              let (bytes, wait) = push_sample-keeps p rec r (rw (taken, data_left) at e) in
              rw (taken, data_left)
                (ap (λ b. sample_bytes r ++ recorded b frames) wait
                  ∙ ap (λ l. l ++ recorded false frames) bytes
                  ∙ append_assoc (sample_bytes rec) (avcc_sample nal ∷ []) (recorded false frames))
        ]
      ]

  push_all-keeps :
      (frames : List (ℕ × Bool × List ℕ)) (rec r : Mp4Rec W)
      → push_all mp4 frames rec ≡ ok r
      → sample_bytes r ≡ whole_recording frames rec
  push_all-keeps [] rec r e =
      let same : rec ≡ r = cc in ap sample_bytes (sym same) ∙ sym (append-nil (sample_bytes rec))
  push_all-keeps ((pts_us, keyframe, nal) ∷ frames) rec r e =
      let next : Mp4Rec W → Result (List ℕ) (Mp4Rec W) = λ r1. push_all mp4 frames r1 in
      let (r1, e1, e2) = >>=-eq-ok (push mp4 pts_us keyframe nal rec) next e in
      push_all-keeps frames r1 r e2 ∙ push-keeps pts_us keyframe nal frames rec r1 e1

  -- A test that may refuse, and has not.
  if_ok :
      (b : Bool) (x : List ℕ) (rec r : Mp4Rec W) → (if b then err x else ok rec) ≡ ok r → rec ≡ r
  if_ok true x rec r e = cc
  if_ok false x rec r e = cc

  finish-writes :
      (no_frames : List ℕ) (rec r : Mp4Rec W)
      → finish mp4 no_frames rec ≡ ok r
      → bytes_of (in_file r.writer) ≡ sample_bytes rec
  unfolding finish
  finish-writes no_frames rec r e =
      let closed : Mp4Rec W → Result (List ℕ) (Mp4Rec W) = λ r1. mp4.write_end r1.writer >>= λ w.
      if r1.samples == 0 then err no_frames else ok (record r1 { writer = w; pending = none }) in
      let (r1, e1, e2) = >>=-eq-ok (flush mp4 (λ before. 33) rec.pending rec) closed e in
      let saved : W → Result (List ℕ) (Mp4Rec W) = λ w.
        if r1.samples == 0 then err no_frames else ok (record r1 { writer = w; pending = none }) in
      let (w, e3, e4) = >>=-eq-ok (mp4.write_end r1.writer) saved e2 in
      let (bytes, wait) = flush-keeps (λ before. 33) rec.pending rec r1 e1 in
      let same =
        if_ok (r1.samples == 0) no_frames (record r1 { writer = w; pending = none }) r e4 in
      ap (λ (x : Mp4Rec W). bytes_of (in_file x.writer)) (sym same)
      ∙ ap bytes_of (ended r1.writer w e3)
      ∙ bytes

  with_sets-new :
      (width height : ℕ) (no_sets no_size : List ℕ) (sets : Option (List ℕ × List ℕ))
      (rec : Mp4Rec W)
      → with_sets mp4 width height no_sets no_size sets ≡ ok rec
      → (in_file rec.writer ≡ []) × (rec.pending ≡ none) × (rec.wait_idr ≡ true)
  with_sets-new width height no_sets no_size none rec e = cc
  with_sets-new width height no_sets no_size (some (sps, pps)) rec e =
      elim (Bool-cases (width == 0 || height == 0)) [
        | inl z ↦ let bad = rw z at e in cc
        | inr z ↦
            let next : W → Result (List ℕ) (Mp4Rec W) = λ w. ok (new_rec mp4 w) in
            let (w, e1, e2) = >>=-eq-ok (mp4.write_start width height sps pps) next (rw z at e) in
            let same : new_rec mp4 w ≡ rec = cc in
            (
              ap (λ (x : Mp4Rec W). in_file x.writer) (sym same)
                  ∙ laws.started width height sps pps w e1,
              ap (λ (x : Mp4Rec W). x.pending) (sym same),
              ap (λ (x : Mp4Rec W). x.wait_idr) (sym same),
            )
      ]

-- A recording that is started, pushed some frames and finished, each of these without an error: the
-- samples of the file are the frames that have AVCC data, from the first of them on that is marked as
-- a keyframe or has a NAL of type 5, in order, each as its AVCC data.
pub finish-recorded :
    {W : Type 0} (mp4 : Mp4Writer W) (laws : WriterLaws mp4) (width height : ℕ)
    (csd no_sets no_size no_frames : List ℕ) (frames : List (ℕ × Bool × List ℕ))
    (rec0 rec rec1 : Mp4Rec W)
    → start mp4 width height csd no_sets no_size ≡ ok rec0
    → push_all mp4 frames rec0 ≡ ok rec
    → finish mp4 no_frames rec ≡ ok rec1
    → bytes_of (laws.in_file rec1.writer) ≡ recorded true frames
unfolding start
finish-recorded mp4 laws width height csd no_sets no_size no_frames frames rec0 rec rec1 es ep ef =
    let (empty, pending, wait) = with_sets-new mp4 laws width height no_sets no_size _ rec0 es in
    finish-writes mp4 laws no_frames rec rec1 ef
    ∙ push_all-keeps mp4 laws frames rec0 rec ep
    ∙ ap (λ l. (bytes_of l ++ pending_bytes rec0.pending) ++ recorded rec0.wait_idr frames) empty
    ∙ ap (λ o. pending_bytes o ++ recorded rec0.wait_idr frames) pending
    ∙ ap (λ b. recorded b frames) wait
