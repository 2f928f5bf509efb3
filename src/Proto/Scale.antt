-- ===== src/Proto/Scale.antt =====
-- crates/proto/src/lib.rs: `encode_pressure`, `decode_pressure`, `encode_scroll`, `decode_scroll`.
use droidmirror.Base.{ℕ}
use droidmirror.Base.Int.{ℤ}
use droidmirror.Base.Float.{Float}

module _ (f : Float) where
  open f use {F32, of_nat, of_int, mul, div, clamp, round, to_i32, to_u16}

  unfoldable pub encode_pressure : F32 → ℕ
  encode_pressure p = to_u16 (round (mul (clamp p (of_nat 0) (of_nat 1)) (of_nat 65535)))

  unfoldable pub decode_pressure : ℕ → F32
  decode_pressure p = div (of_nat p) (of_nat 65535)

  -- 16.16 fixed point.
  unfoldable pub encode_scroll : F32 → ℤ
  encode_scroll v = to_i32 (round (mul v (of_nat 65536)))

  unfoldable pub decode_scroll : ℤ → F32
  decode_scroll v = div (of_int v) (of_nat 65536)
