-- ===== src/Adb/Sync/Pushed.antt =====
-- A `push` that succeeds has sent the whole file.
use droidmirror.Base.{
  ℕ, zero, suc, ◌^◌, ◌<◌, ◌≡◌, refl, sym, ap, subst, ◌∙◌, ◌⊎◌, inl, inr, Option, none, some, List,
  [], ◌∷◌, ◌++◌, leb, length, flatten, append-nil, append_assoc, Bool-cases,
}
use droidmirror.Base.Result.{Result, ok, err, ◌>>=◌, >>=-eq-ok}
use droidmirror.Base.Text.{ascii}
use droidmirror.Adb.Protocol.{AdbError}
use droidmirror.Adb.Sync.{
  StreamOps, or_same, push_spec, quit_request, push_result, write_each, push_requests, status_read,
  read_status, answered, requested, with_sync, push,
}
use droidmirror.Adb.Sync.Received.{sync_file, sync_file-requests}

-- What the streams of a client do: only a write sends.
pub record StreamLaws {S : Type 0} (ops : StreamOps S) : Type 0 where
  pub sent : ℕ → S → List ℕ
  pub written :
      (id : ℕ) (bytes : List ℕ) (s s' : S)
      → ops.write id bytes s ≡ ok s'
      → sent id s' ≡ sent id s ++ bytes
  pub reads :
      (id secs : ℕ) (bytes : List ℕ) (s s' : S)
      → ops.read id secs s ≡ some (ok (bytes, s'))
      → sent id s' ≡ sent id s

module _ {S : Type 0} (ops : StreamOps S) (laws : StreamLaws ops) (lossy : List ℕ → List ℕ) where
  open laws use {sent, written, reads}

  write_each-sent :
      (id : ℕ) (parts : List (List ℕ)) (s s' : S)
      → write_each ops lossy id parts s ≡ ok s'
      → sent id s' ≡ sent id s ++ flatten parts
  unfolding write_each
  write_each-sent id [] s s' e =
      let same : s ≡ s' = cc in ap (sent id) (sym same) ∙ sym (append-nil (sent id s))
  write_each-sent id (part ∷ parts) s s' e =
      let (s1, e1, e2) =
        >>=-eq-ok (ops.write id part s) (λ (s1 : S). write_each ops lossy id parts s1) e in
      write_each-sent id parts s1 s' e2
      ∙ ap (λ l. l ++ flatten parts) (written id part s s1 e1)
      ∙ append_assoc (sent id s) part (flatten parts)

  module _ (again : List ℕ → S → Option (Result AdbError (List ℕ × S))) (id : ℕ) where
    status_read-sent :
        ((acc : List ℕ) (s : S) (status : List ℕ) (s' : S)
          → again acc s ≡ some (ok (status, s'))
          → sent id s' ≡ sent id s)
        → (acc : List ℕ) (s : S) (r : Option (Result AdbError (List ℕ × S))) → ops.read id 20 s ≡ r
        → (status : List ℕ) (s' : S) → status_read ops lossy again acc r ≡ some (ok (status, s'))
        → sent id s' ≡ sent id s
    status_read-sent later acc s none er status s' e = cc
    status_read-sent later acc s (some (err x)) er status s' e = cc
    status_read-sent later acc s (some (ok (chunk, s1))) er status s' e =
        elim (Bool-cases (leb 8 (length (acc ++ chunk)))) [
          | inl enough ↦
              let e' = rw (enough) at e in
              let same : s1 ≡ s' = cc in ap (sent id) (sym same) ∙ reads id 20 chunk s s1 er
          | inr few ↦ later (acc ++ chunk) s1 status s' (rw (few) at e) ∙ reads id 20 chunk s s1 er
        ]

  read_status-sent :
      (fuel id : ℕ) (acc : List ℕ) (s : S) (status : List ℕ) (s' : S)
      → read_status ops lossy fuel id acc s ≡ some (ok (status, s'))
      → sent id s' ≡ sent id s
  unfolding read_status
  read_status-sent zero id acc s status s' e = cc
  read_status-sent (suc fuel) id acc s status s' e =
      status_read-sent (read_status ops lossy fuel id) id (read_status-sent fuel id) acc s _ refl
        status s' e

  -- `QUIT`, if it could be written.
  abbrev pub IsEnd : List ℕ → Type 0
  IsEnd rest = (rest ≡ []) ⊎ (rest ≡ quit_request)

  quit-sent :
      (id : ℕ) (s : S) (r : Result AdbError S)
      → ops.write id quit_request s ≡ r
      → (rest : List ℕ) × IsEnd rest × (sent id (or_same r s) ≡ sent id s ++ rest)
  quit-sent id s (ok s') e = (quit_request, inr refl, written id quit_request s s' e)
  quit-sent id s (err x) e = ([], inl refl, sym (append-nil (sent id s)))

  -- After `base`, some bytes and an end, when the stream is closed.
  abbrev pub Closed : (id : ℕ) (base more : List ℕ) → S → Type 0
  Closed id base more s' =
      (rest : List ℕ) × IsEnd rest
      × (s1 : S) × (s' ≡ ops.close_stream id s1)
      × (sent id s1 ≡ base ++ (more ++ rest))

  answered-sent :
      (id : ℕ) (s s' : S) (status : List ℕ)
      → answered ops lossy id (some (ok (status, s))) ≡ some (ok s')
      → (rest : List ℕ) × IsEnd rest
        × (s1 : S) × (s' ≡ ops.close_stream id s1)
        × (sent id s1 ≡ sent id s ++ rest)
  answered-sent id s s' status e =
      let s1 = or_same (ops.write id quit_request s) s in
      let (rest, end, count) = quit-sent id s (ops.write id quit_request s) refl in
      let e1 : (push_result lossy status >>= λ u. ok (ops.close_stream id s1)) ≡ ok s' = cc in
      let (u, e2, e3) =
        >>=-eq-ok (push_result lossy status) (λ (u : Unit {0}). ok (ops.close_stream id s1)) e1 in
      let same : ops.close_stream id s1 ≡ s' = cc in (rest, end, s1, sym same, count)

  answer-sent :
      (id : ℕ) (s s' : S) (r : Option (Result AdbError (List ℕ × S)))
      → ((status : List ℕ) (s2 : S) → r ≡ some (ok (status, s2)) → sent id s2 ≡ sent id s)
      → answered ops lossy id r ≡ some (ok s')
      → (rest : List ℕ) × IsEnd rest
        × (s1 : S) × (s' ≡ ops.close_stream id s1)
        × (sent id s1 ≡ sent id s ++ rest)
  answer-sent id s s' none same e = cc
  answer-sent id s s' (some (err x)) same e = cc
  answer-sent id s s' (some (ok (status, s2))) same e =
      let (rest, end, s1, closes, count) = answered-sent id s2 s' status e in
      (rest, end, s1, closes, count ∙ ap (λ l. l ++ rest) (same status s2 refl))

  requested-sent :
      (fuel id : ℕ) (bytes remote : List ℕ) (mode mtime : ℕ) (s s' : S) (r : Result AdbError S)
      → write_each ops lossy id (push_requests bytes remote mode mtime) s ≡ r
      → requested ops lossy fuel id r ≡ some (ok s')
      → Closed id (sent id s) (flatten (push_requests bytes remote mode mtime)) s'
  requested-sent fuel id bytes remote mode mtime s s' (err x) w e = cc
  requested-sent fuel id bytes remote mode mtime s s' (ok s2) w e =
      let parts = push_requests bytes remote mode mtime in
      let (rest, end, s1, closes, count) =
        answer-sent id s2 s' (read_status ops lossy fuel id [] s2) (read_status-sent fuel id [] s2)
          e in
      (
        rest,
        end,
        s1,
        closes,
        count
            ∙ ap (λ l. l ++ rest) (write_each-sent id parts s s2 w)
            ∙ append_assoc (sent id s) (flatten parts) rest,
      )

  with_sync-sent :
      (fuel : ℕ) (bytes remote greeting : List ℕ) (mode mtime : ℕ) (s s' : S)
      (r : Result AdbError (ℕ × S))
      → ((id : ℕ) (s2 : S) → r ≡ ok (id, s2) → sent id s2 ≡ greeting)
      → ops.open_stream (ascii "sync:") s ≡ r
      → with_sync ops lossy fuel bytes remote mode mtime r ≡ some (ok s')
      → (id : ℕ) × Closed id greeting (flatten (push_requests bytes remote mode mtime)) s'
  with_sync-sent fuel bytes remote greeting mode mtime s s' (err x) opened o e = cc
  with_sync-sent fuel bytes remote greeting mode mtime s s' (ok (id, s2)) opened o e =
      let parts = flatten (push_requests bytes remote mode mtime) in
      (
        id,
        subst (λ l. Closed id l parts s') (opened id s2 refl)
            (requested-sent fuel id bytes remote mode mtime s2 s' _ refl e),
      )

-- A push that succeeds has closed a stream on which, behind the greeting, the SYNC service reads the
-- path with the mode, all bytes of the file and its time, then `QUIT` or nothing.
pub push_sent :
    {S : Type 0} (ops : StreamOps S) (laws : StreamLaws ops) (lossy : List ℕ → List ℕ) (fuel : ℕ)
    (bytes remote greeting : List ℕ) (mode mtime : ℕ) (s s' : S)
    → ((id : ℕ) (s2 : S)
        → ops.open_stream (ascii "sync:") s ≡ ok (id, s2)
        → laws.sent id s2 ≡ greeting)
    → length (push_spec remote mode) < 2 ^ 32
    → mtime < 2 ^ 32
    → push ops lossy fuel bytes remote mode mtime s ≡ some (ok s')
    → (id : ℕ) × (stream : List ℕ) × (rest : List ℕ) × (s1 : S) × (s' ≡ ops.close_stream id s1)
      × (laws.sent id s1 ≡ greeting ++ stream)
      × ((rest ≡ []) ⊎ (rest ≡ quit_request))
      × (sync_file stream ≡ some (push_spec remote mode, some (bytes, mtime, rest)))
unfolding push
push_sent ops laws lossy fuel bytes remote greeting mode mtime s s' opened h ht e =
    let (id, (rest, end, s1, closes, count)) =
      with_sync-sent ops laws lossy fuel bytes remote greeting mode mtime s s'
        (ops.open_stream (ascii "sync:") s) opened refl e in
    (
      id,
      flatten (push_requests bytes remote mode mtime) ++ rest,
      rest,
      s1,
      closes,
      count,
      end,
      sync_file-requests bytes remote mode mtime rest h ht,
    )
