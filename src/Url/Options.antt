-- ===== src/Url/Options.antt =====
-- `ProcessingOptions` of src/modules/url/options.rs and its default.
pub mod Values
pub mod Arms
pub mod Parse
pub mod Validity
pub mod ValueBounds
pub mod Bounds
pub mod Verdict
pub mod Inherit
use image_resizer.Prelude.{Bool, Option, false, none, ℕ}
use image_resizer.Prelude.Floats.{Floats}
use image_resizer.Text.{Str}
use image_resizer.Text.Signed.{pos, ℤ}
use image_resizer.Models.Formats.{ResizeType, WatermarkPosition, center, fit}
use image_resizer.Models.Query.{Crop, CropDimension, Gravity, Padding, Rgb, TrimOptions, center}

module _ (fl : Floats) where
  open fl use {F32, zero_f32, one_f32}

  pub record ProcessingOptions : Type 0 where
    pub width : Option ℕ
    pub height : Option ℕ
    pub resize_type : ResizeType
    pub blur_sigma : Option F32
    pub grayscale : Option Bool
    pub enlarge : Option Bool
    pub quality : Option ℕ
    pub jpeg_quality : Option ℕ
    pub webp_quality : Option ℕ
    pub webp_lossless : Option Bool
    pub jpeg_progressive : Option Bool
    pub jpeg_no_subsampling : Option Bool
    pub max_bytes : Option ℕ
    pub background : Option Rgb
    pub autorotate : Option Bool
    pub strip_metadata : Option Bool
    pub crop : Option (Crop fl)
    pub gravity : Gravity fl
    pub rotate : ℤ
    pub flip_horizontal : Bool
    pub flip_vertical : Bool
    pub trim : Option (TrimOptions fl)
    pub extend : Option Bool
    pub padding : Option Padding
    pub zoom_x : F32
    pub zoom_y : F32
    pub dpr : F32
    pub min_width : Option ℕ
    pub min_height : Option ℕ
    pub watermark_opacity : Option F32
    pub watermark_position : WatermarkPosition
    pub watermark_x_offset : F32
    pub watermark_y_offset : F32
    pub watermark_scale : F32
    pub watermark_url : Option Str
    pub watermark_size : Option (ℕ × ℕ)
    pub watermark_rotate : F32
    pub watermark_shadow : Option F32

  -- `Default for ProcessingOptions`.
  abbrev pub default_options : ProcessingOptions
  default_options = record {
    width = none;
    height = none;
    resize_type = fit;
    blur_sigma = none;
    grayscale = none;
    enlarge = none;
    quality = none;
    jpeg_quality = none;
    webp_quality = none;
    webp_lossless = none;
    jpeg_progressive = none;
    jpeg_no_subsampling = none;
    max_bytes = none;
    background = none;
    autorotate = none;
    strip_metadata = none;
    crop = none;
    gravity = Gravity.center;
    rotate = pos 0;
    flip_horizontal = false;
    flip_vertical = false;
    trim = none;
    extend = none;
    padding = none;
    zoom_x = one_f32;
    zoom_y = one_f32;
    dpr = one_f32;
    min_width = none;
    min_height = none;
    watermark_opacity = none;
    watermark_position = WatermarkPosition.center;
    watermark_x_offset = zero_f32;
    watermark_y_offset = zero_f32;
    watermark_scale = zero_f32;
    watermark_url = none;
    watermark_size = none;
    watermark_rotate = zero_f32;
    watermark_shadow = none;
  }

  -- The two variables of the parsing loop: the options, and the crop before its gravity is known.
  pub record ParseState : Type 0 where
    pub opts : ProcessingOptions
    pub crop_raw : Option (CropDimension fl × CropDimension fl × Option (Gravity fl))

  abbrev pub initial_state : ParseState
  initial_state = record { opts = default_options; crop_raw = none }
