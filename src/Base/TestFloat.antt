-- ===== src/Base/TestFloat.antt =====
-- A float of whole numbers, without sign: enough to run what is stated for every `Float`.
use droidmirror.Base.Tests.{ltb, leb, ◌==◌}
use Prim.Native.Nat.{ℕ, ◌+◌, ◌-◌, ◌*◌, ◌/◌, min, max}
use native.Mathlib.Omega.{arith}
use droidmirror.Base.Int.{pos, pos_part}
use droidmirror.Base.Float.{Float, CastLaws}

abbrev pub whole : Float
whole = record {
  F32 = ℕ;
  of_nat = λ n. n;
  of_int = λ z. pos_part z;
  half = 0;
  add = λ a b. a + b;
  sub = λ a b. a - b;
  mul = λ a b. a * b;
  div = λ a b. a / b;
  le = leb;
  lt = ltb;
  eq = λ a b. a == b;
  clamp = λ v lo hi. min (max v lo) hi;
  round = λ v. v;
  to_i32 = λ v. pos (min v 2147483647);
  to_u16 = λ v. min v 65535;
  to_u32 = λ v. min v 4294967295;
}

pub whole-CastLaws : CastLaws whole
whole-CastLaws = record {
  to_i32_range = λ v. omega arith;
  to_u16_range = λ v. omega arith;
  to_u32_range = λ v. omega arith;
}
