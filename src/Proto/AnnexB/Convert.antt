-- ===== src/Proto/AnnexB/Convert.antt =====
-- What `to_annex_b` gives, on any input and on AVCC.
use droidmirror.Base.{
  ℕ, zero, suc, ◌≡◌, ◌≢◌, refl, Bool, true, ◌||◌, List, [], ◌∷◌, ◌++◌, length, take, drop, arith,
}
use droidmirror.Base.Bytes.{slice, starts_with, starts_with-append, read_be}
use droidmirror.Proto.AnnexB.{start_code, is_empty, has_start_code, avcc_loop, to_annex_b}

-- Empty, or with a start code in front.
is_started : List ℕ → Bool
is_started out = is_empty out || starts_with out start_code

is_started-append :
    (out bs : List ℕ) → is_started out ≡ true → is_started (out ++ (start_code ++ bs)) ≡ true
unfolding is_started
is_started-append [] bs h = elim bs [ [] ↦ refl | b ∷ r ↦ refl ]
is_started-append (a ∷ []) bs h = ground arith
is_started-append (a ∷ b ∷ []) bs h = ground arith
is_started-append (a ∷ b ∷ c ∷ []) bs h = ground arith
is_started-append (a ∷ b ∷ c ∷ d ∷ out) bs h =
    ground (arith, starts_with-append (a ∷ b ∷ c ∷ d ∷ out) (start_code ++ bs) start_code)

loop-is_started :
    (f : ℕ) (rest out : List ℕ) → is_started out ≡ true → is_started (avcc_loop f rest out).1 ≡ true
unfolding avcc_loop
loop-is_started zero rest out h = h
loop-is_started (suc f) rest out h =
    let n = read_be (slice 0 4 rest) in
    let after = drop 4 rest in
    ground (
      arith,
      is_started-append out (take n after),
      loop-is_started f (drop n after) (out ++ (start_code ++ take n after)),
    )

-- Data that is not empty comes out with a start code in front.
pub to_annex_b-has_start_code : (bs : List ℕ) → bs ≢ [] → has_start_code (to_annex_b bs) ≡ true
unfolding to_annex_b is_started
to_annex_b-has_start_code [] h = absurd (h refl)
to_annex_b-has_start_code (b ∷ bs) h =
    ground (arith, loop-is_started (length (b ∷ bs)) (b ∷ bs) [] refl)

pub has_start_code-fixed : (bs : List ℕ) → has_start_code bs ≡ true → to_annex_b bs ≡ bs
unfolding to_annex_b
has_start_code-fixed bs h = ground arith

-- Converting twice is converting once.
pub to_annex_b-to_annex_b : (bs : List ℕ) → to_annex_b (to_annex_b bs) ≡ to_annex_b bs
to_annex_b-to_annex_b [] = unfold to_annex_b in refl
to_annex_b-to_annex_b (b ∷ bs) =
    has_start_code-fixed _ (to_annex_b-has_start_code (b ∷ bs) (λ e. cc))
