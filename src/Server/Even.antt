-- ===== src/Server/Even.antt =====
-- What `fit_max_size` gives, whatever the float operations round to.
use droidmirror.Base.{ℕ, ◌+◌, ◌%◌, ◌≤◌, ◌≡◌, ◌≢◌, false, arith}
use droidmirror.Base.Float.{Float}
use droidmirror.Server.Size.{must_shrink, fit_max_size}

abbrev pub IsSide : ℕ → Type 0
IsSide n = (n % 2 ≡ 0) × (2 ≤ n)

-- Both sides come out even and at least 2, for a size that is not empty.
pub fit_max_size-IsSide :
    (f : Float) (w h max_size : ℕ)
    → w ≢ 0
    → h ≢ 0
    → IsSide (fit_max_size f w h max_size).0 × IsSide (fit_max_size f w h max_size).1
unfolding fit_max_size must_shrink
fit_max_size-IsSide f w h max_size hw hh = ground arith

-- Where nothing has to shrink, each side, of 2 pixels at least, loses no more than its odd pixel.
fit_max_size_keeps :
    (f : Float) (w h max_size : ℕ)
    → 2 ≤ w
    → 2 ≤ h
    → must_shrink w h max_size ≡ false
    → ((fit_max_size f w h max_size).0 + w % 2 ≡ w) × ((fit_max_size f w h max_size).1 + h % 2 ≡ h)
unfolding fit_max_size must_shrink
fit_max_size_keeps f w h max_size hw hh e = ground arith
