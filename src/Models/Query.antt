-- ===== src/Models/Query.antt =====
-- The structures of src/models/params.rs over the floating-point types.
use image_resizer.Prelude.{Bool, Option, ℕ, ◌++◌, ◌∷◌}
use image_resizer.Prelude.Floats.{Floats}
use image_resizer.Text.{Str, codes}
use image_resizer.Text.Signed.{ℤ}
use image_resizer.Models.Formats.{ImageFormat, ResizeType, WatermarkPosition}
use image_resizer.Text.Numbers.{show_nat}

-- `[u8; 3]`
abbrev pub Rgb : Type 0
Rgb = ℕ × ℕ × ℕ

pub record Padding : Type 0 where
  pub top : ℕ
  pub right : ℕ
  pub bottom : ℕ
  pub left : ℕ

module _ (fl : Floats) where
  open fl use {F32, F64}

  pub data Gravity : Type 0 where
    center north south east west north_east north_west south_east south_west : Gravity
    focus_point : F64 → F64 → Gravity

  pub data CropDimension : Type 0 where
    full : CropDimension
    absolute : ℕ → CropDimension
    relative : F64 → CropDimension

  pub record Crop : Type 0 where
    pub width : CropDimension
    pub height : CropDimension
    pub gravity : Gravity

  pub record TrimOptions : Type 0 where
    pub threshold : F32
    pub color : Option Rgb
    pub equal_hor : Bool
    pub equal_ver : Bool

  pub record WatermarkQuery : Type 0 where
    pub opacity : F32
    pub position : WatermarkPosition
    pub x_offset : F32
    pub y_offset : F32
    pub scale : F32
    pub url : Option Str
    pub size : Option (ℕ × ℕ)
    pub rotate : F32
    pub shadow : Option F32

  pub record ResizeQuery : Type 0 where
    pub url : Str
    pub width : Option ℕ
    pub height : Option ℕ
    pub resize_type : ResizeType
    pub format : ImageFormat
    pub blur_sigma : Option F32
    pub grayscale : Option Bool
    pub enlarge : Bool
    pub quality : Option ℕ
    pub jpeg_quality : Option ℕ
    pub webp_quality : Option ℕ
    pub webp_lossless : Option Bool
    pub jpeg_progressive : Option Bool
    pub jpeg_no_subsampling : Option Bool
    pub max_bytes : Option ℕ
    pub background : Option Rgb
    pub autorotate : Bool
    pub strip_metadata : Bool
    pub crop : Option Crop
    pub gravity : Gravity
    pub rotate : ℤ
    pub flip_horizontal : Bool
    pub flip_vertical : Bool
    pub trim : Option TrimOptions
    pub extend : Bool
    pub padding : Option Padding
    pub zoom_x : F32
    pub zoom_y : F32
    pub dpr : F32
    pub min_width : Option ℕ
    pub min_height : Option ℕ
    pub watermark : Option WatermarkQuery

  -- `Display for Gravity`.
  unfoldable pub show_gravity : Gravity → Str
  show_gravity center = codes "ce"
  show_gravity north = codes "no"
  show_gravity south = codes "so"
  show_gravity east = codes "ea"
  show_gravity west = codes "we"
  show_gravity north_east = codes "noea"
  show_gravity north_west = codes "nowe"
  show_gravity south_east = codes "soea"
  show_gravity south_west = codes "sowe"
  show_gravity (focus_point x y) = codes "fp:" ++ (fl.show_f64 x ++ (b':' ∷ fl.show_f64 y))

  -- `Display for CropDimension`.
  unfoldable pub show_crop_dimension : CropDimension → Str
  unfolding show_nat
  show_crop_dimension full = codes "full"
  show_crop_dimension (absolute v) = codes "abs:" ++ show_nat v
  show_crop_dimension (relative v) = codes "rel:" ++ fl.show_f64 v
