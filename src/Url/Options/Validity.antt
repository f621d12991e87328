-- ===== src/Url/Options/Validity.antt =====
-- The ranges of the numbers in the options of options.rs.
use image_resizer.Prelude.{AllSome, Option, false, true, ℕ, ◌%◌, ◌<◌, ◌^◌, ◌≡◌, ◌≤◌}
use image_resizer.Prelude.Floats.{Floats}
use image_resizer.Text.Signed.{negsuc, pos, ℤ}
use image_resizer.Models.Query.{
  Crop, CropDimension, Gravity, Padding, Rgb, TrimOptions, absolute, focus_point, full, relative,
}
use image_resizer.Url.Options.{ParseState, ProcessingOptions}
use image_resizer.Url.Options.Values.{in_unit}

abbrev pub IsPositiveU32 : ℕ → Type 0
IsPositiveU32 n = (0 < n) × (n < 2 ^ 32)

abbrev pub IsRgb : Rgb → Type 0
IsRgb (r, g, b) = (r < 256) × (g < 256) × (b < 256)

-- A clockwise quarter turn in degrees.
abbrev pub IsQuarterTurn : ℤ → Type 0
IsQuarterTurn (pos n) = (n % 90 ≡ 0) × (n < 360)
IsQuarterTurn (negsuc n) = ⊥

pub record IsPadding (p : Padding) : Type 0 where
  pub top : p.top < 2 ^ 32
  pub right : p.right < 2 ^ 32
  pub bottom : p.bottom < 2 ^ 32
  pub left : p.left < 2 ^ 32

module _ (fl : Floats) where
  open fl use {F32, lt_f32, zero_f32, lt_f64, zero_f64, one_f64}

  abbrev pub IsGravity : Gravity fl → Type 0
  IsGravity (focus_point x y) = (in_unit fl x ≡ true) × (in_unit fl y ≡ true)
  IsGravity _ = Unit

  abbrev pub IsCropDimension : CropDimension fl → Type 0
  IsCropDimension full = Unit
  IsCropDimension (absolute n) = n < 2 ^ 32
  IsCropDimension (relative v) = (lt_f64 v zero_f64 ≡ false) × (lt_f64 v one_f64 ≡ true)

  pub record IsCrop (c : Crop fl) : Type 0 where
    pub width : IsCropDimension c.width
    pub height : IsCropDimension c.height
    pub gravity : IsGravity c.gravity

  pub record IsTrim (t : TrimOptions fl) : Type 0 where
    pub threshold : lt_f32 t.threshold zero_f32 ≡ false
    pub color : AllSome IsRgb t.color

  abbrev IsPositive : F32 → Type 0
  IsPositive v = lt_f32 zero_f32 v ≡ true

  -- The numbers of the options that are checked, the crop apart. The blur and the watermark's opacity,
  -- offsets, scale, rotation and shadow may be any float.
  pub record IsValid (o : ProcessingOptions fl) : Type 0 where
    pub width : AllSome IsPositiveU32 o.width
    pub height : AllSome IsPositiveU32 o.height
    pub min_width : AllSome IsPositiveU32 o.min_width
    pub min_height : AllSome IsPositiveU32 o.min_height
    pub quality : AllSome (λ n. n ≤ 100) o.quality
    pub jpeg_quality : AllSome (λ n. n ≤ 100) o.jpeg_quality
    pub webp_quality : AllSome (λ n. n ≤ 100) o.webp_quality
    pub max_bytes : AllSome (λ n. (0 < n) × (n < 2 ^ 64)) o.max_bytes
    pub background : AllSome IsRgb o.background
    pub gravity : IsGravity o.gravity
    pub rotate : IsQuarterTurn o.rotate
    pub trim : AllSome IsTrim o.trim
    pub padding : AllSome IsPadding o.padding
    pub zoom_x : IsPositive o.zoom_x
    pub zoom_y : IsPositive o.zoom_y
    pub dpr : IsPositive o.dpr
    pub watermark_size : AllSome (λ s. (s.0 < 2 ^ 32) × (s.1 < 2 ^ 32)) o.watermark_size

  abbrev pub IsRawCrop : CropDimension fl × CropDimension fl × Option (Gravity fl) → Type 0
  IsRawCrop (w, h, own) = IsCropDimension w × IsCropDimension h × AllSome IsGravity own

  abbrev pub IsValidState : ParseState fl → Type 0
  IsValidState st = IsValid st.opts × AllSome IsRawCrop st.crop_raw
