-- ===== src/Native/Nals.antt =====
-- crates/native/src/capture.rs: `start_codes`, `nals`, `nal_type`, `sps_pps`, `avcc_sample`.
use droidmirror.Base.{
  ℕ, zero, suc, ◌+◌, ◌-◌, bit_and, max, Bool, ◌||◌, Option, none, some, List, [], ◌∷◌, ◌++◌, ltb,
  ◌==◌, length, drop, get_or, if◌then◌else◌,
}
use droidmirror.Base.Bytes.{slice, starts_with, be_bytes}
use droidmirror.Proto.AnnexB.{is_empty}

-- `at` is behind the start code, which is `sc` bytes long.
pub record Start : Type 0 where
  pub at : ℕ
  pub sc : ℕ

-- The length of the start code in front, 0 for none.
abbrev pub code_len : List ℕ → ℕ
code_len bs =
    if starts_with bs (0 ∷ 0 ∷ 0 ∷ 1 ∷ [])
    then 4
    else if starts_with bs (0 ∷ 0 ∷ 1 ∷ [])
    then 3
    else 0

-- The `while` of `start_codes` from `i` on: each turn moves on by a byte at least.
unfoldable pub scan : ℕ → ℕ → List ℕ → List Start
scan zero i bytes = []
scan (suc fuel) i bytes =
    let n = code_len (drop i bytes) in
    let later = scan fuel (i + max n 1) bytes in
    if ltb (i + 3) (length bytes)
    then (if n == 0 then later else record { at = i + n; sc = n } ∷ later)
    else []

-- Data without a start code is one unit.
abbrev pub or_whole : List Start → List Start
or_whole [] = record { at = 0; sc = 0 } ∷ []
or_whole (s ∷ starts) = s ∷ starts

unfoldable pub start_codes : List ℕ → List Start
start_codes bytes = if is_empty bytes then [] else or_whole (scan (length bytes) 0 bytes)

-- From each start to the start code of the next one, or to the end.
abbrev pub spans : (len : ℕ) → List Start → List (ℕ × ℕ)
spans len [] = []
spans len (s ∷ []) = (s.at, len) ∷ []
spans len (s ∷ next ∷ starts) = (s.at, next.at - next.sc) ∷ spans len (next ∷ starts)

abbrev pub cut : List ℕ → List (ℕ × ℕ) → List (List ℕ)
cut bytes [] = []
cut bytes ((from, to) ∷ rest) =
    let later = cut bytes rest in if ltb from to then slice from to bytes ∷ later else later

unfoldable pub nals : List ℕ → List (List ℕ)
unfolding start_codes
nals bytes = cut bytes (spans (length bytes) (start_codes bytes))

abbrev pub nal_type : List ℕ → ℕ
nal_type nal = bit_and (get_or nal 0 0) 0x1f

-- The first unit of a type.
abbrev pub first_of : ℕ → List (List ℕ) → Option (List ℕ)
first_of type_ [] = none
first_of type_ (nal ∷ rest) =
    let later = first_of type_ rest in if nal_type nal == type_ then some nal else later

unfoldable pub sps_pps : List ℕ → Option (List ℕ × List ℕ)
sps_pps csd = elim (first_of 7 (nals csd)) [
  | none ↦ none
  | some sps ↦ elim (first_of 8 (nals csd)) [ none ↦ none | some pps ↦ some (sps, pps) ]
]

abbrev pub is_left_out : ℕ → Bool
is_left_out t = t == 6 || t == 7 || t == 8 || t == 9

abbrev pub samples : List (List ℕ) → List ℕ
samples [] = []
samples (nal ∷ rest) =
    let later = samples rest in
    if is_left_out (nal_type nal) then later else be_bytes (length nal) ++ (nal ++ later)

unfoldable pub avcc_sample : List ℕ → List ℕ
avcc_sample annexb = samples (nals annexb)
