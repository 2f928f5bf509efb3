-- ===== src/Server/Size.antt =====
-- crates/server/src/control.rs: `fit_max_size`.
use droidmirror.Base.{ℕ, ◌*◌, ◌/◌, Bool, ◌&&◌, ◌||◌, max, ltb, ◌==◌, if◌then◌else◌}
use droidmirror.Base.Float.{Float}

-- `n & !1`.
abbrev pub even_below : ℕ → ℕ
even_below n = n / 2 * 2

unfoldable pub must_shrink : (w h max_size : ℕ) → Bool
must_shrink w h max_size = ltb 0 max_size && ltb max_size (max w h)

module _ (f : Float) where
  open f use {of_nat, mul, div, round, to_u32}

  unfoldable pub scaled : (side max_side max_size : ℕ) → ℕ
  scaled side max_side max_size =
      to_u32 (round (mul (of_nat side) (div (of_nat max_size) (of_nat max_side))))

  unfoldable pub fit_max_size : (w h max_size : ℕ) → ℕ × ℕ
  unfolding must_shrink
  fit_max_size w h max_size =
      let side = λ (n : ℕ). if must_shrink w h max_size then scaled n (max w h) max_size else n in
      if w == 0 || h == 0
      then (w, h)
      else (max (even_below (side w)) 2, max (even_below (side h)) 2)
