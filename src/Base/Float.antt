-- ===== src/Base/Float.antt =====
-- `f32`, which the development leaves abstract: the type, the operations that the source uses, and
-- what the casts promise of their results. No theorem assumes more of it than the laws it names.
use droidmirror.Base.Bytes.{IsI32}
use droidmirror.Base.Int.{ℤ}
use Prim.Native.Nat.{ℕ, ◌<◌, ◌^◌}
use mathlib.Core.Bool.{Bool}

pub record Float : Type 1 where
  pub F32 : Type 0
  -- `n as f32`
  pub of_nat : ℕ → F32
  pub of_int : ℤ → F32
  pub half : F32
  pub add : F32 → F32 → F32
  pub sub : F32 → F32 → F32
  pub mul : F32 → F32 → F32
  pub div : F32 → F32 → F32
  pub le : F32 → F32 → Bool
  pub lt : F32 → F32 → Bool
  pub eq : F32 → F32 → Bool
  -- `v.clamp(lo, hi)` and `v.round()`
  pub clamp : F32 → F32 → F32 → F32
  pub round : F32 → F32
  -- `v as i32`, `v as u16`, `v as u32`
  pub to_i32 : F32 → ℤ
  pub to_u16 : F32 → ℕ
  pub to_u32 : F32 → ℕ

-- A cast from `f32` saturates: the result is in the range of its type, also for NaN.
pub record CastLaws (f : Float) : Type 0 where
  pub to_i32_range : (v : f.F32) → IsI32 (f.to_i32 v)
  pub to_u16_range : (v : f.F32) → f.to_u16 v < 2 ^ 16
  pub to_u32_range : (v : f.F32) → f.to_u32 v < 2 ^ 32
