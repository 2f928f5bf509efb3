-- ===== src/Proto/AnnexB/Avcc.antt =====
-- `to_annex_b` on AVCC: NAL units, each behind its length in four bytes, highest first.
use droidmirror.Base.{
  ℕ, zero, suc, ◌^◌, ◌<◌, ◌≤◌, ◌≡◌, ◌↔◌, ◌⊎◌, true, false, List, [], ◌∷◌, ◌++◌, length,
  length-append, arith, append-nil, append_assoc, ◌∙◌,
}
use droidmirror.Base.Bytes.{be_bytes, read_be-be_bytes, All, take-append_length, drop-append_length}
use droidmirror.Proto.AnnexB.{start_code, has_start_code, avcc_loop, to_annex_b}
use droidmirror.Proto.AnnexB.Convert.{has_start_code-fixed}

abbrev pub IsNal : List ℕ → Type 0
IsNal nal = (0 < length nal) × (length nal < 2 ^ 32)

abbrev pub avcc : List (List ℕ) → List ℕ
avcc [] = []
avcc (nal ∷ nals) = be_bytes (length nal) ++ (nal ++ avcc nals)

abbrev pub annex_b : List (List ℕ) → List ℕ
annex_b [] = []
annex_b (nal ∷ nals) = start_code ++ (nal ++ annex_b nals)

-- A round of the loop moves one unit.
avcc_round :
    (f : ℕ) (nal rest out : List ℕ)
    → IsNal nal
    → avcc_loop (suc f) (be_bytes (length nal) ++ (nal ++ rest)) out
      ≡ avcc_loop f rest (out ++ (start_code ++ nal))
unfolding avcc_loop
avcc_round f nal rest out h = ground (
  arith,
  read_be-be_bytes (length nal),
  take-append_length nal rest,
  drop-append_length nal rest,
  length-append nal rest,
)

avcc_loop-avcc :
    (f : ℕ) (nals : List (List ℕ)) (out : List ℕ)
    → All IsNal nals
    → length (avcc nals) ≤ f
    → avcc_loop f (avcc nals) out ≡ ([], out ++ annex_b nals)
avcc_loop-avcc zero [] out h hf = unfold avcc_loop in rw append-nil
avcc_loop-avcc (suc f) [] out h hf = unfold avcc_loop in rw append-nil
avcc_loop-avcc zero (nal ∷ nals) out h hf = absurd (omega arith)
avcc_loop-avcc (suc f) (nal ∷ nals) out h hf =
    avcc_round f nal (avcc nals) out h.0
    ∙ avcc_loop-avcc f nals (out ++ (start_code ++ nal)) h.1
        (omega (arith, length-append nal (avcc nals)))
    ∙ rw (append_assoc out (start_code ++ nal) (annex_b nals))

-- AVCC that does not begin as a start code becomes the same units behind start codes.
pub to_annex_b-avcc :
    (nal : List ℕ) (nals : List (List ℕ))
    → All IsNal (nal ∷ nals)
    → has_start_code (avcc (nal ∷ nals)) ≡ false
    → to_annex_b (avcc (nal ∷ nals)) ≡ annex_b (nal ∷ nals)
unfolding to_annex_b
to_annex_b-avcc nal nals h hs = ground (
  arith,
  avcc_loop-avcc (length (avcc (nal ∷ nals))) (nal ∷ nals) [] h,
  read_be-be_bytes (length nal),
  length-append nal (avcc nals),
)

-- AVCC begins as a start code exactly when its first unit is 1 byte or 256 to 511 bytes long.
pub has_start_code-avcc :
    (nal : List ℕ) (nals : List (List ℕ))
    → IsNal nal
    → (has_start_code (avcc (nal ∷ nals)) ≡ true)
      ↔ ((length nal ≡ 1) ⊎ ((256 ≤ length nal) × (length nal < 512)))
unfolding has_start_code
has_start_code-avcc nal nals h = ground arith

-- Such a unit in front leaves the AVCC as it is: it is taken for Annex-B.
pub to_annex_b-avcc_mistaken :
    (nal : List ℕ) (nals : List (List ℕ))
    → IsNal nal
    → (length nal ≡ 1) ⊎ ((256 ≤ length nal) × (length nal < 512))
    → to_annex_b (avcc (nal ∷ nals)) ≡ avcc (nal ∷ nals)
to_annex_b-avcc_mistaken nal nals h short =
    has_start_code-fixed _ ((has_start_code-avcc nal nals h).1 short)
