-- ===== src/Proto/AnnexB/Kept.antt =====
-- The conversions of crates/proto and crates/server give bytes for bytes.
use droidmirror.Base.{
  ℕ, zero, suc, arith, ◌||◌, ◌&&◌, not, List, [], ◌∷◌, ◌++◌, ltb, ◌==◌, length, take, drop,
  Bool-cases, inl, inr,
}
use droidmirror.Base.Bytes.{All, IsByte, All-append, All-take, All-drop, slice, read_be}
use droidmirror.Proto.AnnexB.{
  start_code, is_empty, has_start_code, looks_like_avcc, avcc_loop, to_annex_b, csd_annex_b,
}

avcc_loop-All :
    (f : ℕ) (rest out : List ℕ)
    → All IsByte rest
    → All IsByte out
    → All IsByte (avcc_loop f rest out).1
unfolding avcc_loop
avcc_loop-All zero rest out hr ho = ho
avcc_loop-All (suc f) rest out hr ho =
    let n = read_be (slice 0 4 rest) in
    let after = drop 4 rest in
    let ha = All-drop IsByte 4 rest hr in
    let start : All IsByte start_code = omega arith in
    let later =
      avcc_loop-All f (drop n after) (out ++ (start_code ++ take n after))
        (All-drop IsByte n after ha)
        (All-append IsByte out _ ho
          (All-append IsByte start_code _ start (All-take IsByte n after ha))) in
    elim (Bool-cases (ltb (length rest) 4)) [
      | inl short ↦ rw short ho
      | inr long ↦ rw long (elim (Bool-cases (n == 0 || ltb (length after) n)) [
        | inl bad ↦ rw bad ho
        | inr good ↦ rw good later
      ])
    ]

pub to_annex_b-All : (bs : List ℕ) → All IsByte bs → All IsByte (to_annex_b bs)
unfolding to_annex_b
to_annex_b-All bs h =
    let start : All IsByte start_code = omega arith in
    let (rest, out) = avcc_loop (length bs) bs [] in
    elim (Bool-cases (is_empty bs || has_start_code bs)) [
      | inl same ↦ rw same h
      | inr changed ↦
          rw changed
            (elim (Bool-cases (looks_like_avcc bs && (is_empty rest && not (is_empty out)))) [
              | inl avcc ↦ rw avcc (avcc_loop-All (length bs) bs [] h tt)
              | inr raw ↦ rw raw (All-append IsByte start_code bs start h)
            ])
    ]

pub csd_annex_b-All :
    (parts : List (List ℕ)) → All (All IsByte) parts → All IsByte (csd_annex_b parts)
unfolding csd_annex_b
csd_annex_b-All [] h = tt
csd_annex_b-All (part ∷ parts) h = elim (Bool-cases (is_empty part)) [
  | inl e ↦ rw e (csd_annex_b-All parts h.1)
  | inr e ↦ rw e (All-append IsByte _ _ (to_annex_b-All part h.0) (csd_annex_b-All parts h.1))
]
