-- ===== src/Prelude/Floats.antt =====
-- The floating-point types `f32` and `f64` of the language, taken as a parameter: the types with the
-- operations that the program calls. A NaN is one value whatever its payload, which the program
-- never reads.
use image_resizer.Prelude.{Bool, Option, false, true, ℕ, ◌<◌, ◌^◌, ◌≡◌, ◌≢◌, ◌≤◌, ◌⊎◌}
use image_resizer.Text.{Str, codes}
use image_resizer.Text.Split.{contains}

pub record Floats : Type 1 where
  pub F32 : Type 0
  pub F64 : Type 0
  -- `str::parse`
  pub parse_f32 : Str → Option F32
  pub parse_f64 : Str → Option F64
  -- the literals 0.0 and 1.0
  pub zero_f32 : F32
  pub one_f32 : F32
  pub zero_f64 : F64
  pub one_f64 : F64
  -- `a < b`, `a <= b` and `a == b`, false on NaN
  pub lt_f32 : F32 → F32 → Bool
  pub lt_f64 : F64 → F64 → Bool
  pub le_f64 : F64 → F64 → Bool
  pub eq_f64 : F64 → F64 → Bool
  pub le_f32 : F32 → F32 → Bool
  -- `f32::max`, `f64::max`
  pub max_f32 : F32 → F32 → F32
  pub max_f64 : F64 → F64 → F64
  -- `f32::from` of a `u8`, `a - b` and `f32::abs`
  pub f32_of_u8 : ℕ → F32
  pub sub_f32 : F32 → F32 → F32
  pub abs_f32 : F32 → F32
  -- `f64::from` of a `u32` and of an `f32`
  pub f64_of_u32 : ℕ → F64
  pub f64_of_f32 : F32 → F64
  -- `a * b`, `f64::round`, `f64::ceil`
  pub mul_f64 : F64 → F64 → F64
  -- `a - b`, `a / b`, the literal 2.0, `f64::min`, `f64::clamp` and `f64::floor`
  pub sub_f64 : F64 → F64 → F64
  pub div_f64 : F64 → F64 → F64
  pub two_f64 : F64
  pub min_f64 : F64 → F64 → F64
  pub clamp_f64 : F64 → F64 → F64 → F64
  pub floor_f64 : F64 → F64
  pub round_f64 : F64 → F64
  pub ceil_f64 : F64 → F64
  -- `value as u32` and `value as u64`, which saturate
  pub as_u32 : F64 → ℕ
  pub as_u64 : F64 → ℕ
  -- `f64::is_finite`
  pub is_finite : F64 → Bool
  -- `value.round() as u32`, which saturates
  pub round_u32 : F64 → ℕ
  -- `Display`, the shortest text that parses back to the value
  pub show_f32 : F32 → Str
  pub show_f64 : F64 → Str

-- What the standard library documents of these operations, as far as the proofs rely on it.
pub record FloatLaws (fl : Floats) : Type 0 where
  pub show_f32_injective : (a b : Floats.F32 fl) → fl.show_f32 a ≡ fl.show_f32 b → a ≡ b
  pub show_f64_injective : (a b : Floats.F64 fl) → fl.show_f64 a ≡ fl.show_f64 b → a ≡ b
  pub round_u32_lt : (a : Floats.F64 fl) → fl.round_u32 a < 2 ^ 32
  pub zero_lt_one_f32 : fl.lt_f32 fl.zero_f32 fl.one_f32 ≡ true
  pub show_f32_ne_none : (a : Floats.F32 fl) → fl.show_f32 a ≢ codes "None"
  pub show_f64_no_colon : (a : Floats.F64 fl) → contains b':' (fl.show_f64 a) ≡ false
  -- `max` returns one of its arguments.
  pub max_f32_or : (a b : Floats.F32 fl) → (fl.max_f32 a b ≡ a) ⊎ (fl.max_f32 a b ≡ b)
  -- `max` is at least each of its arguments, and ignores a NaN.
  pub max_ge_left :
      (x a b : Floats.F32 fl) → fl.le_f32 x a ≡ true → fl.le_f32 x (fl.max_f32 a b) ≡ true
  pub max_ge_right :
      (x a b : Floats.F32 fl) → fl.le_f32 x b ≡ true → fl.le_f32 x (fl.max_f32 a b) ≡ true
  -- The order of the numbers; a value that is compared with success is no NaN.
  pub lt_le : (a b : Floats.F32 fl) → fl.lt_f32 a b ≡ true → fl.le_f32 a b ≡ true
  pub le_refl_left : (a b : Floats.F32 fl) → fl.le_f32 a b ≡ true → fl.le_f32 a a ≡ true
  pub le_refl_right : (a b : Floats.F32 fl) → fl.le_f32 a b ≡ true → fl.le_f32 b b ≡ true
  pub le_le :
      (a b c : Floats.F32 fl) → fl.le_f32 a b ≡ true → fl.le_f32 b c ≡ true → fl.le_f32 a c ≡ true
  pub lt_le_lt :
      (a b c : Floats.F32 fl) → fl.lt_f32 a b ≡ true → fl.le_f32 b c ≡ true → fl.lt_f32 a c ≡ true
  pub le_of_not_lt :
      (a b : Floats.F32 fl)
      → fl.le_f32 a a ≡ true
      → fl.le_f32 b b ≡ true
      → fl.lt_f32 a b ≡ false
      → fl.le_f32 b a ≡ true
  pub lt_f32_irrefl : (a : Floats.F32 fl) → fl.lt_f32 a a ≡ false
  pub as_u32_lt : (a : Floats.F64 fl) → fl.as_u32 a < 2 ^ 32
  -- A value that is not below 1.0 is converted to a positive number.
  pub as_u32_pos : (a : Floats.F64 fl) → 0 < fl.as_u32 (fl.max_f64 a fl.one_f64)
  -- Rounding down and converting a value between 0 and a natural number, or NaN, gives at most it.
  pub floor_zero_le : (n : ℕ) → fl.as_u32 (fl.floor_f64 fl.zero_f64) ≤ n
  pub floor_of_u32_le : (n : ℕ) → fl.as_u32 (fl.floor_f64 (fl.f64_of_u32 n)) ≤ n
  pub floor_half_le :
      (n : ℕ) → fl.as_u32 (fl.floor_f64 (fl.div_f64 (fl.f64_of_u32 n) fl.two_f64)) ≤ n
  pub floor_clamp_le :
      (a : Floats.F64 fl) (n : ℕ)
      → fl.as_u32 (fl.floor_f64 (fl.clamp_f64 a fl.zero_f64 (fl.f64_of_u32 n))) ≤ n
