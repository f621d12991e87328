-- ===== src/Cache/Fields.antt =====
-- The texts that `generate_key` feeds to the hash, in its order.
use image_resizer.Prelude.{
  Bool, List, Option, [], false, if◌then◌else◌, map, none, some, true, ℕ, ◌++◌, ◌∷◌,
}
use image_resizer.Prelude.Floats.{Floats}
use image_resizer.Text.{Str, codes, lower_byte}
use image_resizer.Text.Numbers.{show_nat}
use image_resizer.Text.Split.{join}
use image_resizer.Text.Signed.{show_int}
use image_resizer.Models.Formats.{ImageFormat, debug_position, show_format, show_resize_type}
use image_resizer.Models.Query.{
  Crop, Padding, ResizeQuery, Rgb, TrimOptions, WatermarkQuery, show_crop_dimension, show_gravity,
}

abbrev pub none_text : Str
none_text = codes "None"

-- `None` or the printed value.
abbrev pub show_option : {A : Type 0} → (A → Str) → Option A → Str
show_option f none = none_text
show_option f (some a) = f a

-- `Display for bool`.
unfoldable pub show_bool : Bool → Str
show_bool true = codes "true"
show_bool false = codes "false"

-- A quality is hashed as its one byte, a colour as its three.
abbrev pub quality_bytes : ℕ → Str
quality_bytes n = n ∷ []

abbrev pub rgb_bytes : Rgb → Str
rgb_bytes (r, g, b) = r ∷ g ∷ b ∷ []

-- `to_string().to_lowercase()`; the texts are ASCII.
unfoldable pub format_text : ImageFormat → Str
unfolding lower_byte
format_text f = map lower_byte (show_format f)

-- "{w}x{h}"
unfoldable pub size_text : ℕ × ℕ → Str
size_text (w, h) = show_nat w ++ (b'x' ∷ show_nat h)

-- "{}:{}:{}:{}"
unfoldable pub padding_text : Padding → Str
padding_text p =
    join b':' (show_nat p.top ∷ show_nat p.right ∷ show_nat p.bottom ∷ show_nat p.left ∷ [])

module _ (fl : Floats) where
  open fl use {F32, lt_f32, zero_f32, show_f32}

  -- A blur of at most 0, or NaN, is no blur.
  abbrev pub canonical_blur : Option F32 → Option F32
  canonical_blur none = none
  canonical_blur (some sigma) = if lt_f32 zero_f32 sigma then some sigma else none

  -- `canonical_blur_sigma`.
  abbrev pub blur_text : Option F32 → Str
  blur_text sigma = show_option show_f32 (canonical_blur sigma)

  abbrev pub crop_fields : Option (Crop fl) → List Str
  crop_fields none = none_text ∷ []
  crop_fields (some c) =
      show_crop_dimension fl c.width
      ∷ show_crop_dimension fl c.height
      ∷ show_gravity fl c.gravity
      ∷ []

  abbrev pub trim_fields : Option (TrimOptions fl) → List Str
  trim_fields none = none_text ∷ []
  trim_fields (some t) =
      show_f32 t.threshold
      ∷ show_option rgb_bytes t.color
      ∷ show_bool t.equal_hor
      ∷ show_bool t.equal_ver
      ∷ []

  abbrev pub watermark_fields : Option (WatermarkQuery fl) → List Str
  watermark_fields none = none_text ∷ []
  watermark_fields (some w) =
      show_f32 w.opacity
      ∷ debug_position w.position
      ∷ show_f32 w.x_offset
      ∷ show_f32 w.y_offset
      ∷ show_f32 w.scale
      ∷ show_option (λ u. u) w.url
      ∷ show_option size_text w.size
      ∷ show_f32 w.rotate
      ∷ show_option show_f32 w.shadow
      ∷ []

  unfoldable pub key_fields : ResizeQuery fl → List Str
  key_fields p =
      p.url
      ∷ show_option show_nat p.width
      ∷ show_option show_nat p.height
      ∷ show_resize_type p.resize_type
      ∷ format_text p.format
      ∷ blur_text p.blur_sigma
      ∷ show_option show_bool p.grayscale
      ∷ show_bool p.enlarge
      ∷ show_option quality_bytes p.quality
      ∷ show_option quality_bytes p.jpeg_quality
      ∷ show_option quality_bytes p.webp_quality
      ∷ show_option show_bool p.webp_lossless
      ∷ show_option show_bool p.jpeg_progressive
      ∷ show_option show_bool p.jpeg_no_subsampling
      ∷ show_option show_nat p.max_bytes
      ∷ show_option rgb_bytes p.background
      ∷ show_bool p.autorotate
      ∷ show_gravity fl p.gravity
      ∷ (crop_fields p.crop
          ++ (show_int p.rotate
              ∷ show_bool p.flip_horizontal
              ∷ show_bool p.flip_vertical
              ∷ (trim_fields p.trim
                  ++ (watermark_fields p.watermark
                      ++ (show_bool p.extend
                          ∷ show_option padding_text p.padding
                          ∷ show_f32 p.zoom_x
                          ∷ show_f32 p.zoom_y
                          ∷ show_f32 p.dpr
                          ∷ show_option show_nat p.min_width
                          ∷ show_option show_nat p.min_height
                          ∷ show_bool p.strip_metadata
                          ∷ [])))))
