-- ===== src/Adb/Sync/Received.antt =====
-- What a device reads of a `push`, by the requests of the SYNC service.
use droidmirror.Base.{
  ℕ, zero, suc, ◌%◌, ◌^◌, ◌<◌, ◌≤◌, ◌≡◌, ap, ◌∙◌, arith, Option, none, some, List, [], ◌∷◌, ◌++◌,
  map, leb, length, take, drop, flatten, if◌then◌else◌, append-nil, append_assoc, length-append,
  if_true,
}
use droidmirror.Base.Bytes.{
  All, slice, starts_with, le_bytes, read_le, read_le-le_bytes, take-append_length,
  drop-append_length,
}
use droidmirror.Base.Text.{ascii}
use droidmirror.Adb.Streams.{chunks_from}
use droidmirror.Adb.Delivery.{IsPiece, chunks_from_covers}
use droidmirror.Adb.Sync.{
  sync_chunk, push_spec, send_request, data_request, done_request, push_requests,
}

-- A file's bytes, its time, and what follows.
abbrev pub Received : Type 0
Received = Option (List ℕ × ℕ × List ℕ)

abbrev with_chunk : List ℕ → Received → Received
with_chunk chunk none = none
with_chunk chunk (some (bytes, mtime, rest)) = some (chunk ++ bytes, mtime, rest)

abbrev data_part : (again : List ℕ → Received) → ℕ → List ℕ → Received
data_part again n body =
    let later = again (drop n body) in
    if leb n (length body) then with_chunk (take n body) later else none

-- `DATA` with a chunk, until `DONE` with the time; on fuel.
sync_data : ℕ → List ℕ → Received
sync_data zero bs = none
sync_data (suc f) bs =
    let later = data_part (sync_data f) (read_le (slice 4 8 bs)) (drop 8 bs) in
    if starts_with bs (ascii "DATA")
    then later
    else if starts_with bs (ascii "DONE")
    then some ([], read_le (slice 4 8 bs), drop 8 bs)
    else none

abbrev send_part : ℕ → List ℕ → Option (List ℕ × Received)
send_part n body =
    if leb n (length body)
    then some (take n body, sync_data (suc (length body)) (drop n body))
    else none

-- What a device makes of the stream: the path with its mode, and the file.
pub sync_file : List ℕ → Option (List ℕ × Received)
sync_file bs =
    if starts_with bs (ascii "SEND") then send_part (read_le (slice 4 8 bs)) (drop 8 bs) else none

fits_4 : (n : ℕ) → n < 2 ^ 32 → read_le (le_bytes 4 (n % 2 ^ 32)) ≡ n
fits_4 n h = read_le-le_bytes 4 (n % 2 ^ 32) (omega arith) ∙ omega arith

data_part-chunk :
    (again : List ℕ → Received) (chunk more : List ℕ)
    → data_part again (length chunk) (chunk ++ more) ≡ with_chunk chunk (again more)
data_part-chunk again chunk more =
    if_true _ none {b = leb (length chunk) (length (chunk ++ more))}
      (ground (arith, length-append chunk more))
    ∙ ap (λ l. with_chunk l (again (drop (length chunk) (chunk ++ more))))
        (take-append_length chunk more)
    ∙ ap (λ l. with_chunk chunk (again l)) (drop-append_length chunk more)

sync_data-chunk :
    (f : ℕ) (chunk more : List ℕ)
    → length chunk < 2 ^ 32
    → sync_data (suc f) (data_request chunk ++ more) ≡ with_chunk chunk (sync_data f more)
unfolding sync_data data_request le_bytes
sync_data-chunk f chunk more h =
    ap (λ n. data_part (sync_data f) n (chunk ++ more)) (fits_4 (length chunk) h)
    ∙ data_part-chunk (sync_data f) chunk more

sync_data-done :
    (f mtime : ℕ) (more : List ℕ)
    → mtime < 2 ^ 32
    → sync_data (suc f) (done_request mtime ++ more) ≡ some ([], mtime, more)
unfolding sync_data done_request le_bytes
sync_data-done f mtime more h =
    ap (λ n. some ([], n, more)) (read_le-le_bytes 4 mtime (omega (arith, h)))

abbrev IsChunk : List ℕ → Type 0
IsChunk = IsPiece sync_chunk

sync_data-requests :
    (chunks : List (List ℕ)) (f mtime : ℕ) (more : List ℕ)
    → length chunks < f
    → mtime < 2 ^ 32
    → All IsChunk chunks
    → sync_data f (flatten (map data_request chunks ++ (done_request mtime ∷ [])) ++ more)
      ≡ some (flatten chunks, mtime, more)
sync_data-requests chunks zero mtime more h ht hc = absurd (omega (arith, h))
sync_data-requests [] (suc f) mtime more h ht hc =
    ap (λ l. sync_data (suc f) (l ++ more)) (append-nil (done_request mtime))
    ∙ sync_data-done f mtime more ht
sync_data-requests (chunk ∷ chunks) (suc f) mtime more h ht hc =
    ap (sync_data (suc f)) (append_assoc (data_request chunk) _ more)
    ∙ sync_data-chunk f chunk _ (omega (arith, hc.0.1))
    ∙ ap (with_chunk chunk) (sync_data-requests chunks f mtime more (omega (arith, h)) ht hc.1)

length-data_request : (chunk : List ℕ) → 1 ≤ length (data_request chunk)
unfolding data_request
length-data_request chunk = omega arith

length-requests :
    (chunks : List (List ℕ)) (mtime : ℕ)
    → length chunks ≤ length (flatten (map data_request chunks ++ (done_request mtime ∷ [])))
length-requests [] mtime = omega arith
length-requests (chunk ∷ chunks) mtime = omega (
  arith,
  length-data_request chunk,
  length-requests chunks mtime,
  length-append (data_request chunk)
      (flatten (map data_request chunks ++ (done_request mtime ∷ []))),
)

send_part_lem :
    (spec body : List ℕ)
    → send_part (length spec) (spec ++ body)
      ≡ some (spec, sync_data (suc (length (spec ++ body))) body)
send_part_lem spec body =
    if_true _ none {b = leb (length spec) (length (spec ++ body))}
      (ground (arith, length-append spec body))
    ∙ ap
        (λ l. some (l, sync_data (suc (length (spec ++ body))) (drop (length spec) (spec ++ body))))
        (take-append_length spec body)
    ∙ ap (λ l. some (spec, sync_data (suc (length (spec ++ body))) l))
        (drop-append_length spec body)

sync_file-send :
    (remote : List ℕ) (mode : ℕ) (body : List ℕ)
    → length (push_spec remote mode) < 2 ^ 32
    → sync_file (send_request remote mode ++ body)
      ≡ some (push_spec remote mode, sync_data (suc (length (push_spec remote mode ++ body))) body)
unfolding sync_file send_request le_bytes
sync_file-send remote mode body h =
    ap (λ n. send_part n (push_spec remote mode ++ body))
      (fits_4 (length (push_spec remote mode)) h)
    ∙ send_part_lem (push_spec remote mode) body

-- A device reads the requests of a file back: its path and mode, its bytes and its time.
pub sync_file-requests :
    (bytes remote : List ℕ) (mode mtime : ℕ) (more : List ℕ)
    → length (push_spec remote mode) < 2 ^ 32
    → mtime < 2 ^ 32
    → sync_file (flatten (push_requests bytes remote mode mtime) ++ more)
      ≡ some (push_spec remote mode, some (bytes, mtime, more))
sync_file-requests bytes remote mode mtime more h ht =
    let chunks = chunks_from (length bytes) sync_chunk bytes in
    let (same, pieces) =
      chunks_from_covers (length bytes) sync_chunk bytes (omega arith) (omega arith) in
    let body = flatten (map data_request chunks ++ (done_request mtime ∷ [])) in
    let spec = push_spec remote mode in
    let enough : length chunks < suc (length (spec ++ (body ++ more))) = omega (
      arith,
      length-requests chunks mtime,
      length-append body more,
      length-append spec (body ++ more),
    ) in
    ap sync_file (append_assoc (send_request remote mode) body more)
    ∙ sync_file-send remote mode (body ++ more) h
    ∙ ap (λ (r : Received). some (spec, r))
        (sync_data-requests chunks _ mtime more enough ht pieces)
    ∙ ap (λ l. some (spec, some (l, mtime, more))) same
