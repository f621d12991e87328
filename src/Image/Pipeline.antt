-- ===== src/Image/Pipeline.antt =====
-- The steps of an image from its bytes to the encoded result, in the order of
-- `process_image_blocking_with_limits_and_watermark`, `encode_single_image` and `resize_and_filter` of
-- src/services/image/handler.rs. The operations of the package image, the resampling kernel, the
-- decoders and the encoders are parameters, and so is the path of animated sources.
pub mod Stages
pub mod Encoded
pub mod Forwarded
use image_resizer.Prelude.{Bool, List, Option, Result, none, some, ℕ}
use image_resizer.Prelude.Floats.{Floats}
use image_resizer.Text.{Str}
use image_resizer.Models.Query.{Gravity, ResizeQuery, Rgb, WatermarkQuery}
use image_resizer.Image.Geometry.{ImageCrate}
use image_resizer.Image.Detect.{SourceFormat}
use image_resizer.Image.Sizing.{TooLarge}

pub data ProcessError : Type 0 where
  output_too_large : TooLarge → ProcessError
  source_too_large unresolved_auto panicked : ProcessError
  final_too_large : ℕ → ℕ → ProcessError
  step_failed : Str → ProcessError

pub data FilterType : Type 0 where
  triangle lanczos3 : FilterType

-- The fields of `PerformanceConfig` that are read here.
pub record OutputConfig : Type 0 where
  pub max_output : ℕ × ℕ
  pub max_src_resolution_mp : ℕ
  pub jpeg_progressive_default : Bool
  pub jpeg_no_subsampling_default : Bool

abbrev pub Step : Type 0 → Type 0
Step A = Result ProcessError A

-- The colour profile and the EXIF block that go with an image.
pub record Metadata : Type 0 where
  pub icc_profile : Option (List ℕ)
  pub exif : Option (List ℕ)

-- What a decode gives; `NoTransforms` is 0.
pub record Decoded (im : ImageCrate) : Type 0 where
  pub img : ImageCrate.DynamicImage im
  pub orientation : ℕ
  pub metadata : Metadata

-- The functions that do the pixel work.
pub record PixelWork (fl : Floats) (im : ImageCrate) : Type 1 where
  pub decode_animation :
      Str → SourceFormat → Step (Option (List (ImageCrate.DynamicImage im) × (ℕ × ℕ)))
  pub encode_animation :
      List (ImageCrate.DynamicImage im) → ℕ → ℕ → ResizeQuery fl → Step (List ℕ × Str)
  pub peek_dimensions : Str → Option SourceFormat → Step (ℕ × ℕ)
  pub decode_with_limits : Str → Option SourceFormat → ℕ → ResizeQuery fl → Step (Decoded im)
  pub apply_orientation : ℕ → ImageCrate.DynamicImage im → ImageCrate.DynamicImage im
  pub fir_resize :
      ImageCrate.DynamicImage im → ℕ → ℕ → FilterType → Step (ImageCrate.DynamicImage im)
  pub fir_resize_exact :
      ImageCrate.DynamicImage im → ℕ → ℕ → FilterType → Step (ImageCrate.DynamicImage im)
  pub fir_resize_to_fill :
      ImageCrate.DynamicImage im
      → ℕ
      → ℕ
      → FilterType
      → Gravity fl
      → Step (ImageCrate.DynamicImage im)
  pub rotate90 : ImageCrate.DynamicImage im → ImageCrate.DynamicImage im
  pub rotate180 : ImageCrate.DynamicImage im → ImageCrate.DynamicImage im
  pub rotate270 : ImageCrate.DynamicImage im → ImageCrate.DynamicImage im
  pub fliph : ImageCrate.DynamicImage im → ImageCrate.DynamicImage im
  pub flipv : ImageCrate.DynamicImage im → ImageCrate.DynamicImage im
  pub grayscale : ImageCrate.DynamicImage im → ImageCrate.DynamicImage im
  pub blur : ImageCrate.DynamicImage im → Floats.F32 fl → ImageCrate.DynamicImage im
  pub apply_watermark :
      ImageCrate.DynamicImage im → Str → WatermarkQuery fl → Step (ImageCrate.DynamicImage im)
  pub flatten_onto_background : ImageCrate.DynamicImage im → Rgb → ImageCrate.DynamicImage im
  pub normalize_transparent_pixels : ImageCrate.DynamicImage im → Rgb → ImageCrate.DynamicImage im
  -- `f32::from` of a quality, and the default quality of WebP
  pub f32_of_quality : ℕ → Floats.F32 fl
  pub default_webp_quality : Floats.F32 fl
  pub encode_webp : ImageCrate.DynamicImage im → Floats.F32 fl → Bool → Metadata → Step (List ℕ)
  pub encode_png : ImageCrate.DynamicImage im → Metadata → Step (List ℕ)
  pub encode_jpeg : ImageCrate.DynamicImage im → ℕ → Bool → Bool → Metadata → Step (List ℕ)
  pub encode_avif : ImageCrate.DynamicImage im → ℕ → Option (List ℕ) → Step (List ℕ)
  pub write_gif : ImageCrate.DynamicImage im → Step (List ℕ)

abbrev pub default_background : Rgb
default_background = (255, 255, 255)

abbrev pub default_jpeg_quality : ℕ
default_jpeg_quality = 75

abbrev pub default_avif_quality : ℕ
default_avif_quality = 80

-- `Option::or`.
abbrev pub or_else : {A : Type 0} → Option A → Option A → Option A
or_else none b = b
or_else (some a) b = some a
