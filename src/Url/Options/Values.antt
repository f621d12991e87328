-- ===== src/Url/Options/Values.antt =====
-- The value parsers of src/modules/url/options.rs: one argument text to one value, or the error
-- that names the whole segment.
use image_resizer.Prelude.{
  Bool, List, Option, [], all, bind?, err, false, get_elem?, guard, if◌then◌else◌, leb, length, ltb,
  none, not, ok, some, true, ℕ, ◌&&◌, ◌*◌, ◌+◌, ◌==◌, ◌>>=◌, ◌>>◌, ◌^◌, ◌||◌, ◌∷◌,
}
use image_resizer.Prelude.Floats.{Floats}
use image_resizer.Text.{Str, codes, eqb, is_empty}
use image_resizer.Text.Numbers.{from_str_radix, parse_u32, parse_u8, to_digit}
use image_resizer.Text.Signed.{is_multiple_of, parse_i32, pos, rem_euclid, ℤ}
use image_resizer.Models.Formats.{
  ResizeType, WatermarkPosition, center, east, north, north_east, north_west, parse_resize_name,
  south, south_east, south_west, west,
}
use image_resizer.Models.Query.{
  CropDimension, Gravity, Padding, Rgb, TrimOptions, absolute, center, east, focus_point, full,
  north, north_east, north_west, relative, south, south_east, south_west, west,
}
use image_resizer.Url.{
  R, Reason, expected_between, expected_color_args, expected_exactly, focus_out_of_range,
  gravity_missing, invalid_option_value, negative_threshold, not_boolean, not_bounded,
  not_finite_non_negative, not_gravity, not_hex_color, not_integer, not_number, not_position,
  not_positive, not_quarter_turn, not_resize_type, not_unsigned, out_of_range, threshold_required,
  top_required,
}

-- `Err(InvalidOptionValue { option: segment, reason })`.
abbrev pub invalid : {A : Type 0} → Str → Reason → R A
invalid segment reason = err (invalid_option_value segment reason)

-- `ok_or_else(|| InvalidOptionValue { .. })`.
abbrev pub or_invalid : {A : Type 0} → Option A → Str → Reason → R A
or_invalid none segment reason = invalid segment reason
or_invalid (some a) segment reason = ok a

-- `require_args::<1>`, `require_args::<2>` and `require_args::<3>`.
abbrev pub require_one : List Str → Str → R Str
require_one (a ∷ []) segment = ok a
require_one _ segment = invalid segment (expected_exactly 1)

abbrev pub require_two : List Str → Str → R (Str × Str)
require_two (a ∷ b ∷ []) segment = ok (a, b)
require_two _ segment = invalid segment (expected_exactly 2)

abbrev pub require_three : List Str → Str → R (Str × Str × Str)
require_three (a ∷ b ∷ c ∷ []) segment = ok (a, b, c)
require_three _ segment = invalid segment (expected_exactly 3)

-- `args.get(i).filter(|s| !s.is_empty())`.
abbrev pub slot : ℕ → List Str → Option Str
slot i args = elim (get_elem? args i) [ none ↦ none | some s ↦ if is_empty s then none else some s ]

-- 0 stands for `None`.
abbrev pub unless_zero : ℕ → Option ℕ
unless_zero n = if n == 0 then none else some n

unfoldable pub parse_dimension : Str → Str → R (Option ℕ)
parse_dimension raw segment = do
  value ← or_invalid (parse_u32 raw) segment (not_unsigned raw)
  ok (unless_zero value)

unfoldable pub parse_dimension_allow_zero : Str → Str → R ℕ
parse_dimension_allow_zero raw segment = or_invalid (parse_u32 raw) segment (not_unsigned raw)

unfoldable pub parse_non_negative_int : Str → Str → R ℕ
parse_non_negative_int raw segment = or_invalid (parse_u32 raw) segment (not_unsigned raw)

unfoldable pub parse_bounded : Str → Str → ℕ → ℕ → R ℕ
parse_bounded raw segment lo hi = do
  value ← or_invalid (parse_u8 raw) segment (not_bounded raw lo hi)
  if ltb value lo || ltb hi value then invalid segment (out_of_range value lo hi) else ok value

unfoldable pub parse_resize_type : Str → Str → R ResizeType
parse_resize_type raw segment = or_invalid (parse_resize_name raw) segment (not_resize_type raw)

unfoldable pub parse_bool : Str → Str → R Bool
parse_bool raw segment =
    if eqb raw (codes "true") || eqb raw (codes "1")
    then ok true
    else if eqb raw (codes "false") || eqb raw (codes "0")
    then ok false
    else invalid segment (not_boolean raw)

unfoldable pub parse_watermark_position : Str → Str → R WatermarkPosition
parse_watermark_position raw segment =
    if eqb raw (codes "ce")
    then ok center
    else if eqb raw (codes "no")
    then ok north
    else if eqb raw (codes "so")
    then ok south
    else if eqb raw (codes "ea")
    then ok east
    else if eqb raw (codes "we")
    then ok west
    else if eqb raw (codes "noea")
    then ok north_east
    else if eqb raw (codes "nowe")
    then ok north_west
    else if eqb raw (codes "soea")
    then ok south_east
    else if eqb raw (codes "sowe")
    then ok south_west
    else invalid segment (not_position raw)

-- `angle % 90 != 0` is refused, the rest is taken modulo a full turn.
unfoldable pub parse_rotate_angle : Str → Str → R ℤ
parse_rotate_angle raw segment = do
  angle ← or_invalid (parse_i32 raw) segment (not_integer raw)
  if is_multiple_of 90 angle
      then ok (pos (rem_euclid angle 360))
      else invalid segment (not_quarter_turn angle)

-- `char::is_ascii_hexdigit`.
abbrev is_hex_digit : ℕ → Bool
is_hex_digit c = leb b'0' c && leb c b'9' || leb b'a' c && leb c b'f' || leb b'A' c && leb c b'F'

-- The closure `expand` on one digit, and `channel` on two.
abbrev pub expand : ℕ → Option ℕ
expand c = bind? (to_digit 16 c) (λ digit. some (digit * 16 + digit))

abbrev pub channel : ℕ → ℕ → Option ℕ
channel c d = from_str_radix 16 (2 ^ 8) (c ∷ d ∷ [])

abbrev pub hex_channels : Str → Option Rgb
hex_channels (a ∷ b ∷ c ∷ []) =
    bind? (expand a) (λ r. bind? (expand b) (λ g. bind? (expand c) (λ b. some (r, g, b))))
hex_channels (a ∷ b ∷ c ∷ d ∷ e ∷ f ∷ []) =
    bind? (channel a b) (λ r. bind? (channel c d) (λ g. bind? (channel e f) (λ b. some (r, g, b))))
hex_channels _ = none

unfoldable pub parse_hex_color : Str → Str → R Rgb
parse_hex_color hex segment =
    if all is_hex_digit hex
    then or_invalid (hex_channels hex) segment (not_hex_color hex)
    else invalid segment (not_hex_color hex)

unfoldable pub parse_background : List Str → Str → R Rgb
parse_background (r ∷ g ∷ b ∷ []) segment = do
  r' ← parse_bounded r segment 0 255
  g' ← parse_bounded g segment 0 255
  b' ← parse_bounded b segment 0 255
  ok (r', g', b')
parse_background (hex ∷ []) segment = parse_hex_color hex segment
parse_background _ segment = invalid segment expected_color_args

-- The closure `slot` of `parse_padding`: an absent or empty slot is no value.
abbrev pub padding_slot : ℕ → List Str → Str → R (Option ℕ)
padding_slot i args segment = elim (slot i args) [
  | none ↦ ok none
  | some s ↦ do value ← parse_non_negative_int s segment; ok (some value)
]

abbrev unwrap_or {ℓ} : {A : Type ℓ} → Option A → A → A
unwrap_or none d = d
unwrap_or (some a) d = a

unfoldable pub parse_padding : List Str → Str → R Padding
unfolding parse_non_negative_int
parse_padding args segment =
    if is_empty args || ltb 4 (length args) then invalid segment (expected_between 1 4) else do
      given_top ← padding_slot 0 args segment
      top ← or_invalid given_top segment top_required
      given_right ← padding_slot 1 args segment
      given_bottom ← padding_slot 2 args segment
      given_left ← padding_slot 3 args segment
      ok (record {
        top = top;
        right = unwrap_or given_right top;
        bottom = unwrap_or given_bottom top;
        left = unwrap_or given_left (unwrap_or given_right top);
      })

-- An optional flag that is `false` when its slot is absent or empty.
abbrev pub flag_slot : ℕ → List Str → Str → R Bool
flag_slot i args segment = elim (slot i args) [ none ↦ ok false | some v ↦ parse_bool v segment ]

abbrev pub color_slot : ℕ → List Str → Str → R (Option Rgb)
color_slot i args segment = elim (slot i args) [
  | none ↦ ok none
  | some hex ↦ do color ← parse_hex_color hex segment; ok (some color)
]

module _ (fl : Floats) where
  open fl use {F32, F64, parse_f32, parse_f64, zero_f32, zero_f64, one_f64, lt_f32, lt_f64, le_f64}
  open fl use {eq_f64, is_finite, round_u32}

  unfoldable pub parse_float : Str → Str → R F32
  parse_float raw segment = or_invalid (parse_f32 raw) segment (not_number raw)

  unfoldable pub parse_positive_nonzero_float : Str → Str → R F32
  unfolding parse_float
  parse_positive_nonzero_float raw segment = do
    value ← parse_float raw segment
    if lt_f32 zero_f32 value then ok value else invalid segment not_positive

  unfoldable pub parse_zoom : List Str → Str → R (F32 × F32)
  unfolding parse_positive_nonzero_float
  parse_zoom (zoom ∷ []) segment = do z ← parse_positive_nonzero_float zoom segment; ok (z, z)
  parse_zoom (zoom_x ∷ zoom_y ∷ []) segment = do
    x ← parse_positive_nonzero_float zoom_x segment
    y ← parse_positive_nonzero_float zoom_y segment
    ok (x, y)
  parse_zoom _ segment = invalid segment (expected_between 1 2)

  -- The value of an accepted crop dimension.
  abbrev crop_dimension : F64 → CropDimension fl
  crop_dimension value =
      if eq_f64 value zero_f64
      then full
      else if lt_f64 value one_f64
      then relative value
      else absolute (round_u32 value)

  unfoldable pub parse_crop_dimension : Str → Str → R (CropDimension fl)
  parse_crop_dimension raw segment = do
    value ← or_invalid (parse_f64 raw) segment (not_number raw)
    if not (is_finite value) || lt_f64 value zero_f64
        then invalid segment not_finite_non_negative
        else ok (crop_dimension value)

  -- `(0.0..=1.0).contains(&x)`.
  abbrev pub in_unit : F64 → Bool
  in_unit x = le_f64 zero_f64 x && le_f64 x one_f64

  abbrev focus : Str → Str → Str → R (Gravity fl)
  focus x y segment = do
    x' ← or_invalid (parse_f64 x) segment (not_number x)
    y' ← or_invalid (parse_f64 y) segment (not_number y)
    if not (in_unit x') || not (in_unit y')
        then invalid segment focus_out_of_range
        else ok (focus_point x' y')

  -- A gravity that is one token.
  abbrev simple_gravity : Str → Str → R (Gravity fl)
  simple_gravity raw segment =
      if eqb raw (codes "ce")
      then ok Gravity.center
      else if eqb raw (codes "no")
      then ok Gravity.north
      else if eqb raw (codes "so")
      then ok Gravity.south
      else if eqb raw (codes "ea")
      then ok Gravity.east
      else if eqb raw (codes "we")
      then ok Gravity.west
      else if eqb raw (codes "noea")
      then ok Gravity.north_east
      else if eqb raw (codes "nowe")
      then ok Gravity.north_west
      else if eqb raw (codes "soea")
      then ok Gravity.south_east
      else if eqb raw (codes "sowe")
      then ok Gravity.south_west
      else invalid segment (not_gravity raw)

  unfoldable pub parse_gravity : List Str → Str → R (Gravity fl)
  parse_gravity [] segment = invalid segment gravity_missing
  parse_gravity (token ∷ []) segment = simple_gravity token segment
  parse_gravity (token ∷ x ∷ y ∷ []) segment =
      if eqb token (codes "fp") then focus x y segment else invalid segment (not_gravity token)
  parse_gravity (token ∷ _) segment = invalid segment (not_gravity token)

  unfoldable pub parse_trim : List Str → Str → R (TrimOptions fl)
  unfolding parse_float
  parse_trim [] segment = invalid segment (expected_between 1 4)
  parse_trim (threshold_raw ∷ args) segment =
      if ltb 3 (length args)
      then invalid segment (expected_between 1 4)
      else if is_empty threshold_raw
      then invalid segment threshold_required
      else do
        threshold ← parse_float threshold_raw segment
        guard (not (lt_f32 threshold zero_f32)) (invalid_option_value segment negative_threshold)
        color ← color_slot 0 args segment
        equal_hor ← flag_slot 1 args segment
        equal_ver ← flag_slot 2 args segment
        ok (record {
          threshold = threshold;
          color = color;
          equal_hor = equal_hor;
          equal_ver = equal_ver;
        })
