-- ===== src/Image/Pipeline/Forwarded.antt =====
-- What reaches an encoder, from the bytes of the source on.
use image_resizer.Prelude.{
  List, [], false, length, none, not, ok, some, ℕ, ◌&&◌, ◌*◌, ◌/◌, ◌<◌, ◌==◌, ◌∷◌, ◌≡◌, ◌≤◌, ◌⊎◌,
}
use image_resizer.Prelude.Floats.{Floats}
use image_resizer.Text.{Str}
use image_resizer.Models.Query.{ResizeQuery}
use image_resizer.Models.Formats.{ImageFormat, avif, gif, png, webp}
use image_resizer.Image.Geometry.{ImageCrate}
use image_resizer.Image.Detect.{SourceFormat, avif, detect_format_from_bytes, gif, png}
use image_resizer.Image.Pipeline.{Decoded, OutputConfig, PixelWork}
use image_resizer.Image.Pipeline.Encoded.{IsEncoded, SizeLaws}

module _ (fl : Floats) (im : ImageCrate) (work : PixelWork fl im) (laws : SizeLaws fl im work) where
  open im use {DynamicImage, width, height, has_alpha}

  -- The formats of a result that can hold an animation.
  abbrev pub IsAnimatable : ImageFormat → Type 0
  IsAnimatable format = (format ≡ webp) ⊎ (format ≡ gif)

  -- The source is of a known format and was read as an animation with these frames, for a result that
  -- can hold one.
  pub record IsAnimation (image_bytes : Str) (params : ResizeQuery fl) (frames : List DynamicImage)
      (src : ℕ × ℕ) : Type 0 where
    pub format : SourceFormat
    pub detected : detect_format_from_bytes image_bytes ≡ some format
    pub animatable : IsAnimatable params.format
    pub decoded : work.decode_animation image_bytes format ≡ ok (some (frames, src))

  -- The source was not read as an animation: its format is unknown, the result cannot hold one, or the
  -- source is none.
  abbrev pub IsStill : Str → ResizeQuery fl → Type 0
  IsStill image_bytes params =
      (format : SourceFormat)
      → detect_format_from_bytes image_bytes ≡ some format
      → IsAnimatable params.format
      → work.decode_animation image_bytes format ≡ ok none

  -- How an image was produced.
  pub data Produced (image_bytes : Str) (params : ResizeQuery fl) (config : OutputConfig)
      (out : List ℕ × Str) : Type 0 where
    animated :
        (frames : List DynamicImage) (w h : ℕ)
        → IsAnimation image_bytes params frames (w, h)
        → 1 < length frames
        → work.encode_animation frames w h params ≡ ok out
        → Produced image_bytes params config out
    one_frame :
        (frame : DynamicImage) (src : ℕ × ℕ)
        → IsAnimation image_bytes params (frame ∷ []) src
        → IsEncoded fl im work laws params config false none out
        → Produced image_bytes params config out
    still :
        (w h : ℕ) (decoded : Decoded im)
        → IsStill image_bytes params
        → work.peek_dimensions image_bytes (detect_format_from_bytes image_bytes) ≡ ok (w, h)
        → w * h / 1000000 ≤ config.max_src_resolution_mp
        → work.decode_with_limits image_bytes
            (detect_format_from_bytes image_bytes)
            config.max_src_resolution_mp
            params
          ≡ ok decoded
        → IsEncoded fl im work laws params config
            (params.autorotate && not (decoded.orientation == 0))
            decoded.metadata.exif
            out
        → Produced image_bytes params config out
