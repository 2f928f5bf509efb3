-- ===== src/Native/Spans.antt =====
-- The units that the recorder cuts out are inside the data, and the scan has fuel enough.
use droidmirror.Base.{
  ℕ, zero, suc, ◌+◌, ◌≤◌, ◌≡◌, refl, sym, arith, List, [], ◌∷◌, length, drop, max,
}
use droidmirror.Base.Bytes.{All}
use droidmirror.Native.Nals.{Start, code_len, scan, or_whole, start_codes, spans}

-- A start whose code is inside the data.
abbrev pub IsInside : ℕ → Start → Type 0
IsInside len s = (s.at ≤ len) × (s.sc ≤ s.at)

scan-IsInside : (fuel i : ℕ) (bytes : List ℕ) → All (IsInside (length bytes)) (scan fuel i bytes)
unfolding scan
scan-IsInside zero i bytes = tt
scan-IsInside (suc fuel) i bytes =
    let n = code_len (drop i bytes) in ground (arith, scan-IsInside fuel (i + max n 1) bytes)

or_whole-IsInside :
    (len : ℕ) (starts : List Start)
    → All (IsInside len) starts
    → All (IsInside len) (or_whole starts)
or_whole-IsInside len [] h = ((omega arith, omega arith), tt)
or_whole-IsInside len (s ∷ starts) h = h

start_codes-IsInside : (bytes : List ℕ) → All (IsInside (length bytes)) (start_codes bytes)
unfolding start_codes
start_codes-IsInside [] = tt
start_codes-IsInside (b ∷ bytes) =
    or_whole-IsInside _ (scan (length (b ∷ bytes)) 0 (b ∷ bytes))
      (scan-IsInside (length (b ∷ bytes)) 0 (b ∷ bytes))

-- The span is inside the data.
abbrev pub IsWithin : ℕ → ℕ × ℕ → Type 0
IsWithin len span = (span.0 ≤ len) × (span.1 ≤ len)

spans-IsWithin_of :
    (len : ℕ) (starts : List Start)
    → All (IsInside len) starts
    → All (IsWithin len) (spans len starts)
spans-IsWithin_of len [] h = tt
spans-IsWithin_of len (s ∷ []) h = ((h.0.0, omega arith), tt)
spans-IsWithin_of len (s ∷ next ∷ starts) h =
    ((h.0.0, omega (arith, h.1.0.0)), spans-IsWithin_of len (next ∷ starts) h.1)

-- Every unit that `nals` slices out of the data lies inside it, so that no slice panics.
pub spans-IsWithin :
    (bytes : List ℕ) → All (IsWithin (length bytes)) (spans (length bytes) (start_codes bytes))
spans-IsWithin bytes =
    spans-IsWithin_of (length bytes) (start_codes bytes) (start_codes-IsInside bytes)

scan_done : (fuel i : ℕ) (bytes : List ℕ) → length bytes ≤ i → scan fuel i bytes ≡ []
unfolding scan
scan_done zero i bytes h = refl
scan_done (suc fuel) i bytes h = ground arith

-- The result of the scan does not depend on its fuel, once there is as much as data left: so
-- `start_codes`, which gives it the length of the data, never runs out.
scan-fuel :
    (fuel fuel' i : ℕ) (bytes : List ℕ)
    → length bytes ≤ i + fuel
    → length bytes ≤ i + fuel'
    → scan fuel i bytes ≡ scan fuel' i bytes
unfolding scan
scan-fuel zero fuel' i bytes h h' = sym (scan_done fuel' i bytes (omega arith))
scan-fuel (suc fuel) zero i bytes h h' = scan_done (suc fuel) i bytes (omega arith)
scan-fuel (suc fuel) (suc fuel') i bytes h h' =
    let n = code_len (drop i bytes) in
    rw (scan-fuel fuel fuel' (i + max n 1) bytes (omega arith) (omega arith)) refl
