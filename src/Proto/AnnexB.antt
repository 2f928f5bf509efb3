-- ===== src/Proto/AnnexB.antt =====
-- crates/proto/src/lib.rs: `to_annex_b` and its tests; crates/server/src/annexb.rs: `csd_annex_b`.
pub mod Convert
pub mod Avcc
pub mod Kept
use droidmirror.Base.{
  ℕ, zero, suc, ◌+◌, Bool, true, false, ◌&&◌, ◌||◌, not, List, [], ◌∷◌, ◌++◌, ltb, leb, ◌==◌,
  length, take, drop, if◌then◌else◌,
}
use droidmirror.Base.Bytes.{slice, starts_with, read_be}

abbrev pub start_code : List ℕ
start_code = 0 ∷ 0 ∷ 0 ∷ 1 ∷ []

abbrev pub is_empty : List ℕ → Bool
is_empty [] = true
is_empty (b ∷ bs) = false

unfoldable pub has_start_code : List ℕ → Bool
has_start_code bs = starts_with bs (0 ∷ 0 ∷ 0 ∷ 1 ∷ []) || starts_with bs (0 ∷ 0 ∷ 1 ∷ [])

unfoldable pub looks_like_avcc : List ℕ → Bool
looks_like_avcc bs =
    let n = read_be (slice 0 4 bs) in
    if ltb (length bs) 5 then false else ltb 0 n && ltb n (length bs) && leb (4 + n) (length bs)

-- The `while` loop; `rest` is `data[i..]`, so the loop ends at `i == data.len()` when it is empty.
unfoldable pub avcc_loop : ℕ → List ℕ → List ℕ → List ℕ × List ℕ
avcc_loop zero rest out = (rest, out)
avcc_loop (suc fuel) rest out =
    let n = read_be (slice 0 4 rest) in
    let after = drop 4 rest in
    let next = avcc_loop fuel (drop n after) (out ++ (start_code ++ take n after)) in
    if ltb (length rest) 4
    then (rest, out)
    else if n == 0 || ltb (length after) n
    then (after, out)
    else next

-- The loop takes at least five bytes a round, so `length bs` rounds are enough.
unfoldable pub to_annex_b : List ℕ → List ℕ
unfolding has_start_code looks_like_avcc
to_annex_b bs =
    let (rest, out) = avcc_loop (length bs) bs [] in
    if is_empty bs || has_start_code bs
    then bs
    else if looks_like_avcc bs && (is_empty rest && not (is_empty out))
    then out
    else start_code ++ bs

-- `csd_annex_b`.
unfoldable pub csd_annex_b : List (List ℕ) → List ℕ
csd_annex_b [] = []
csd_annex_b (part ∷ parts) =
    let blob = csd_annex_b parts in if is_empty part then blob else to_annex_b part ++ blob
