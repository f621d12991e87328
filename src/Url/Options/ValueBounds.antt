-- ===== src/Url/Options/ValueBounds.antt =====
-- The value parsers of options.rs against the ranges of the options.
use image_resizer.Prelude.{
  AllOk, AllSome, List, Option-cases, [], arith, get_elem?, inl, inr, true, ℕ, ◌<◌, ◌^◌, ◌∷◌, ◌≡◌,
  ◌≤◌,
}
use image_resizer.Text.{Str}
use image_resizer.Text.Numbers.{from_str_radix-lt, parse_u32, to_digit}
use image_resizer.Url.Options.Validity.{
  IsCropDimension, IsGravity, IsPadding, IsPositiveU32, IsQuarterTurn, IsRgb, IsTrim,
}
use image_resizer.Url.Options.Values.{
  channel, color_slot, expand, hex_channels, padding_slot, parse_background, parse_bounded,
  parse_crop_dimension, parse_dimension, parse_dimension_allow_zero, parse_gravity, parse_hex_color,
  parse_non_negative_int, parse_padding, parse_positive_nonzero_float, parse_rotate_angle,
  parse_trim, parse_zoom,
}
use image_resizer.Text.Signed.{parse_i32, rem_euclid_quarter}
use image_resizer.Prelude.Floats.{FloatLaws, Floats}

pub parse_dimension-bounds :
    (raw segment : Str) → AllOk (AllSome IsPositiveU32) (parse_dimension raw segment)
unfolding parse_dimension
parse_dimension-bounds raw segment = elim (Option-cases (parse_u32 raw)) [
  | inl e ↦ ground arith
  | inr (n, e) ↦ ground (arith, from_str_radix-lt 10 (2 ^ 32) raw n (omega arith) e)
]

pub parse_dimension_allow_zero-bounds :
    (raw segment : Str) → AllOk (λ n. n < 2 ^ 32) (parse_dimension_allow_zero raw segment)
unfolding parse_dimension_allow_zero
parse_dimension_allow_zero-bounds raw segment = elim (Option-cases (parse_u32 raw)) [
  | inl e ↦ ground arith
  | inr (n, e) ↦ ground (arith, from_str_radix-lt 10 (2 ^ 32) raw n (omega arith) e)
]

pub parse_bounded-bounds :
    (raw segment : Str) (lo hi : ℕ)
    → AllOk (λ n. (lo ≤ n) × (n ≤ hi)) (parse_bounded raw segment lo hi)
unfolding parse_bounded
parse_bounded-bounds raw segment lo hi = ground arith

pub parse_rotate_angle-bounds :
    (raw segment : Str) → AllOk IsQuarterTurn (parse_rotate_angle raw segment)
unfolding parse_rotate_angle
parse_rotate_angle-bounds raw segment = elim (Option-cases (parse_i32 raw)) [
  | inl e ↦ ground arith
  | inr (a, e) ↦ ground (arith, rem_euclid_quarter a)
]

expand-lt : (c : ℕ) → AllSome (λ n. n < 256) (expand c)
unfolding to_digit
expand-lt c = ground arith

channel-lt : (c d : ℕ) → AllSome (λ n. n < 256) (channel c d)
channel-lt c d = elim (Option-cases (channel c d)) [
  | inl e ↦ rw e tt
  | inr (n, e) ↦ rw e (from_str_radix-lt 16 (2 ^ 8) (c ∷ d ∷ []) n (omega arith) e)
]

pub hex_channels-IsRgb : (hex : Str) → AllSome IsRgb (hex_channels hex)
hex_channels-IsRgb (a ∷ b ∷ c ∷ []) = ground (arith, expand-lt a, expand-lt b, expand-lt c)
hex_channels-IsRgb (a ∷ b ∷ c ∷ d ∷ e ∷ f ∷ []) =
    ground (arith, channel-lt a b, channel-lt c d, channel-lt e f)
hex_channels-IsRgb _ = tt

pub parse_hex_color-IsRgb : (hex segment : Str) → AllOk IsRgb (parse_hex_color hex segment)
unfolding parse_hex_color
parse_hex_color-IsRgb hex segment = ground (arith, hex_channels-IsRgb hex)

pub parse_background-IsRgb :
    (args : List Str) (segment : Str) → AllOk IsRgb (parse_background args segment)
unfolding parse_background
parse_background-IsRgb (r ∷ g ∷ b ∷ []) segment = ground (
  arith,
  parse_bounded-bounds r segment 0 255,
  parse_bounded-bounds g segment 0 255,
  parse_bounded-bounds b segment 0 255,
)
parse_background-IsRgb (hex ∷ []) segment = parse_hex_color-IsRgb hex segment
parse_background-IsRgb _ segment = tt

parse_non_negative_int-bounds :
    (raw segment : Str) → AllOk (λ n. n < 2 ^ 32) (parse_non_negative_int raw segment)
unfolding parse_non_negative_int
parse_non_negative_int-bounds raw segment = elim (Option-cases (parse_u32 raw)) [
  | inl e ↦ ground arith
  | inr (n, e) ↦ ground (arith, from_str_radix-lt 10 (2 ^ 32) raw n (omega arith) e)
]

padding_slot-bounds :
    (i : ℕ) (args : List Str) (segment : Str)
    → AllOk (AllSome (λ n. n < 2 ^ 32)) (padding_slot i args segment)
padding_slot-bounds i args segment = elim (Option-cases (get_elem? args i)) [
  | inl e ↦ ground arith
  | inr (s, e) ↦ ground (arith, parse_non_negative_int-bounds s segment)
]

pub parse_padding-IsPadding :
    (args : List Str) (segment : Str) → AllOk IsPadding (parse_padding args segment)
unfolding parse_padding
parse_padding-IsPadding args segment = ground (
  arith,
  padding_slot-bounds 0 args segment,
  padding_slot-bounds 1 args segment,
  padding_slot-bounds 2 args segment,
  padding_slot-bounds 3 args segment,
)

color_slot-IsRgb :
    (i : ℕ) (args : List Str) (segment : Str) → AllOk (AllSome IsRgb) (color_slot i args segment)
color_slot-IsRgb i args segment = elim (Option-cases (get_elem? args i)) [
  | inl e ↦ ground arith
  | inr (s, e) ↦ ground (arith, parse_hex_color-IsRgb s segment)
]

module _ (fl : Floats) where
  open fl use {lt_f32, zero_f32, parse_f32, parse_f64}

  pub parse_positive-bounds :
      (raw segment : Str)
      → AllOk (λ v. lt_f32 zero_f32 v ≡ true) (parse_positive_nonzero_float fl raw segment)
  unfolding parse_positive_nonzero_float
  parse_positive-bounds raw segment = ground arith

  pub parse_zoom-bounds :
      (args : List Str) (segment : Str)
      → AllOk
          (λ z. (lt_f32 zero_f32 z.0 ≡ true) × (lt_f32 zero_f32 z.1 ≡ true))
          (parse_zoom fl args segment)
  unfolding parse_zoom
  parse_zoom-bounds [] segment = tt
  parse_zoom-bounds (x ∷ []) segment = ground arith
  parse_zoom-bounds (x ∷ y ∷ []) segment = ground arith
  parse_zoom-bounds (x ∷ y ∷ z ∷ args) segment = tt

  pub parse_crop_dimension-bounds :
      FloatLaws fl
      → (raw segment : Str) → AllOk (IsCropDimension fl) (parse_crop_dimension fl raw segment)
  unfolding parse_crop_dimension
  parse_crop_dimension-bounds laws raw segment = elim (Option-cases (parse_f64 raw)) [
    | inl e ↦ ground arith
    | inr (v, e) ↦ ground (arith, laws.round_u32_lt v)
  ]

  pub parse_gravity-bounds :
      (tokens : List Str) (segment : Str) → AllOk (IsGravity fl) (parse_gravity fl tokens segment)
  unfolding parse_gravity
  parse_gravity-bounds [] segment = tt
  parse_gravity-bounds (t ∷ []) segment = ground arith
  parse_gravity-bounds (t ∷ x ∷ []) segment = tt
  parse_gravity-bounds (t ∷ x ∷ y ∷ []) segment = ground arith
  parse_gravity-bounds (t ∷ x ∷ y ∷ z ∷ tokens) segment = tt

  pub parse_trim-IsTrim :
      (args : List Str) (segment : Str) → AllOk (IsTrim fl) (parse_trim fl args segment)
  unfolding parse_trim
  parse_trim-IsTrim [] segment = tt
  parse_trim-IsTrim (raw ∷ args) segment = ground (arith, color_slot-IsRgb 0 args segment)
