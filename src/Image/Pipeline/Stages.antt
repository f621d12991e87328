-- ===== src/Image/Pipeline/Stages.antt =====
-- The steps of the pipeline, each as a function, and their order.
use image_resizer.Prelude.{
  Bool, List, Option, Result, [], bind?, err, false, guard, if◌then◌else◌, leb, map_option, none,
  not, ok, some, true, unwrap_or, ℕ, ◌&&◌, ◌-◌, ◌==◌, ◌>>=◌, ◌>>◌, ◌^◌, ◌||◌, ◌∷◌,
}
use image_resizer.Prelude.Floats.{Floats}
use image_resizer.Text.{Str, codes}
use image_resizer.Text.Signed.{rem_euclid, ℤ}
use image_resizer.Models.Query.{
  Crop, Gravity, Padding, ResizeQuery, Rgb, TrimOptions, WatermarkQuery,
}
use image_resizer.Models.Formats.{
  ImageFormat, ResizeType, avif, fill, fit, force, gif, jpg, png, webp,
}
use image_resizer.Image.Geometry.{ImageCrate, apply_crop, apply_extend, apply_padding}
use image_resizer.Image.Detect.{
  SourceFormat, avif, check_source_resolution, detect_format_from_bytes, gif, png,
}
use image_resizer.Image.Pipeline.{
  FilterType, Metadata, OutputConfig, PixelWork, Step, default_avif_quality, default_background,
  default_jpeg_quality, final_too_large, lanczos3, or_else, output_too_large, panicked,
  source_too_large, triangle, unresolved_auto,
}
use image_resizer.Image.Sizing.{TooLarge, check_output_dimensions, effective_resize_box}
use image_resizer.Image.Trimming.{apply_trim}
use image_resizer.Image.MaxBytes.{encode_with_max_bytes}
use image_resizer.Image.Exif.{neutralize_exif_orientation}

module _ (fl : Floats) (im : ImageCrate) (work : PixelWork fl im) where
  open im use {DynamicImage, width, height, has_alpha}
  open fl use {F32, lt_f32, zero_f32}

  -- 300 pixels or less on both sides of the box.
  unfoldable pub choose_filter : Option ℕ × Option ℕ → FilterType
  choose_filter (some w, some h) = if leb w 300 && leb h 300 then triangle else lanczos3
  choose_filter _ = lanczos3

  -- The match on the box and the resize type.
  unfoldable pub resize_step :
      DynamicImage
      → Option ℕ × Option ℕ
      → FilterType
      → ResizeType
      → Gravity fl
      → ℕ × ℕ
      → Step DynamicImage
  resize_step img (some w, none) filter kind gravity src = work.fir_resize img w (2 ^ 32 - 1) filter
  resize_step img (none, some h) filter kind gravity src = work.fir_resize img (2 ^ 32 - 1) h filter
  resize_step img (some w, some h) filter fit gravity src = work.fir_resize img w h filter
  resize_step img (some w, some h) filter fill gravity src =
      work.fir_resize_to_fill img w h filter gravity
  resize_step img (some w, some h) filter force gravity src = work.fir_resize_exact img w h filter
  resize_step img (some w, some h) filter ResizeType.auto gravity (src_width, src_height) =
      let src_landscape = leb src_height src_width in
      let dst_landscape = leb h w in
      if src_landscape && dst_landscape || not src_landscape && not dst_landscape
      then work.fir_resize_to_fill img w h filter gravity
      else work.fir_resize img w h filter
  resize_step img (none, none) filter kind gravity src = ok img

  unfoldable pub apply_rotate : DynamicImage → ℤ → DynamicImage
  unfolding rem_euclid
  apply_rotate img degrees =
      let angle = rem_euclid degrees 360 in
      if angle == 90
      then work.rotate90 img
      else if angle == 180
      then work.rotate180 img
      else if angle == 270
      then work.rotate270 img
      else img

  unfoldable pub apply_flip : DynamicImage → Bool → Bool → DynamicImage
  apply_flip img horizontal vertical =
      let flipped = if horizontal then work.fliph img else img in
      if vertical then work.flipv flipped else flipped

  abbrev grayscale_step : Option Bool → DynamicImage → DynamicImage
  grayscale_step (some true) img = work.grayscale img
  grayscale_step _ img = img

  -- A blur of at most 0, or NaN, does nothing.
  abbrev blur_step : Option F32 → DynamicImage → DynamicImage
  blur_step none img = img
  blur_step (some sigma) img = if lt_f32 zero_f32 sigma then work.blur img sigma else img

  unfoldable pub resize_and_filter :
      DynamicImage → Option ℕ × Option ℕ → FilterType → ResizeQuery fl → ℕ × ℕ → Step DynamicImage
  unfolding resize_step apply_rotate apply_flip
  resize_and_filter img box filter params src = do
    resized ← resize_step img box filter params.resize_type params.gravity src
    let rotated = apply_rotate resized params.rotate
    let flipped = apply_flip rotated params.flip_horizontal params.flip_vertical
    ok (blur_step params.blur_sigma (grayscale_step params.grayscale flipped))

  -- The EXIF block that goes with the output.
  unfoldable pub forwarded_exif : Bool → Bool → Option Str → Option Str
  forwarded_exif strip_metadata orientation_applied exif =
      if strip_metadata
      then none
      else bind? exif
          (λ raw. if orientation_applied then neutralize_exif_orientation raw else some raw)

  unfoldable pub extend_step : DynamicImage → Option (ℕ × ℕ) → Bool → Rgb → DynamicImage
  unfolding apply_extend
  extend_step img (some (target_w, target_h)) true background =
      apply_extend fl im img target_w target_h background
  extend_step img _ _ background = img

  abbrev padding_step : DynamicImage → Option Padding → Rgb → DynamicImage
  padding_step img none background = img
  padding_step img (some padding) background = apply_padding fl im img padding background

  -- The check after extend and padding.
  abbrev pub final_fits : OutputConfig → DynamicImage → Bool
  final_fits config img =
      leb (width img) config.max_output.0 && leb (height img) config.max_output.1

  unfoldable pub watermark_step :
      DynamicImage → Option Str → Option (WatermarkQuery fl) → Step DynamicImage
  watermark_step img (some bytes) (some watermark) = work.apply_watermark img bytes watermark
  watermark_step img _ _ = ok img

  -- JPEG has no alpha channel.
  unfoldable pub alpha_step : DynamicImage → ImageFormat → Rgb → DynamicImage
  alpha_step img format background =
      if has_alpha img
      then elim format [
        | jpg ↦ work.flatten_onto_background img background
        | _ ↦ work.normalize_transparent_pixels img background
      ]
      else img

  abbrev pub background_of : ResizeQuery fl → Rgb
  background_of params = unwrap_or params.background default_background

  unfoldable pub jpeg_output :
      DynamicImage → ResizeQuery fl → OutputConfig → Metadata → Step (List ℕ)
  unfolding encode_with_max_bytes
  jpeg_output img params config metadata =
      let quality = unwrap_or (or_else params.jpeg_quality params.quality) default_jpeg_quality in
      let progressive = unwrap_or params.jpeg_progressive config.jpeg_progressive_default in
      let no_subsampling =
        unwrap_or params.jpeg_no_subsampling config.jpeg_no_subsampling_default in
      elim params.max_bytes [
        | some max_bytes ↦
            encode_with_max_bytes max_bytes
              (λ q. work.encode_jpeg img q progressive no_subsampling metadata) quality
        | none ↦ work.encode_jpeg img quality progressive no_subsampling metadata
      ]

  abbrev pub webp_quality_of : ResizeQuery fl → F32
  webp_quality_of params =
      unwrap_or (map_option work.f32_of_quality (or_else params.webp_quality params.quality))
        work.default_webp_quality

  -- The encoder and the content type of a format.
  unfoldable pub encode_output :
      ImageFormat → DynamicImage → ResizeQuery fl → OutputConfig → Metadata → Step (List ℕ × Str)
  unfolding jpeg_output
  encode_output jpg img params config metadata = do
    bytes ← jpeg_output img params config metadata
    ok (bytes, codes "image/jpeg")
  encode_output png img params config metadata = do
    bytes ← work.encode_png img metadata
    ok (bytes, codes "image/png")
  encode_output webp img params config metadata = do
    bytes ←
        work.encode_webp img (webp_quality_of params) (unwrap_or params.webp_lossless false)
          metadata
    ok (bytes, codes "image/webp")
  encode_output avif img params config metadata = do
    bytes ← work.encode_avif img (unwrap_or params.quality default_avif_quality) metadata.exif
    ok (bytes, codes "image/avif")
  encode_output gif img params config metadata = do
    bytes ← work.write_gif img
    ok (bytes, codes "image/gif")
  encode_output ImageFormat.auto img params config metadata = err unresolved_auto

  -- The steps from the resize to the check of the final size.
  unfoldable pub lay_out : DynamicImage → ℕ × ℕ → ResizeQuery fl → Step DynamicImage
  unfolding resize_and_filter extend_step choose_filter effective_resize_box
  lay_out img src params = do
    let sizing = effective_resize_box fl params src.0 src.1
    filtered ← resize_and_filter img sizing.resize_box (choose_filter sizing.resize_box) params src
    let background = background_of params
    let extended = extend_step filtered sizing.extend_box params.extend background
    ok (padding_step extended params.padding background)

  unfoldable pub encode_single_image :
      DynamicImage
      → ℕ × ℕ
      → ResizeQuery fl
      → Metadata
      → Bool
      → OutputConfig
      → Option Str
      → Step (List ℕ × Str)
  unfolding lay_out
  encode_single_image img src params metadata orientation_applied config watermark_bytes = do
    let exif = forwarded_exif params.strip_metadata orientation_applied metadata.exif
    final_img ← lay_out img src params
    guard (final_fits config final_img) (final_too_large (width final_img) (height final_img))
    marked ← watermark_step final_img watermark_bytes params.watermark
    encode_output params.format (alpha_step marked params.format (background_of params)) params
        config (record { icc_profile = metadata.icc_profile; exif = exif })

  abbrev pub trim_step : Option (TrimOptions fl) → DynamicImage → DynamicImage
  trim_step none img = img
  trim_step (some trim) img = apply_trim fl im img trim

  abbrev pub crop_step : Option (Crop fl) → DynamicImage → DynamicImage
  crop_step none img = img
  crop_step (some crop) img = apply_crop fl im img crop

  -- The path of a still image: the check of the header comes before the decode.
  unfoldable pub process_still :
      Str → Option SourceFormat → ResizeQuery fl → OutputConfig → Option Str → Step (List ℕ × Str)
  unfolding encode_single_image
  process_still image_bytes format params config watermark_bytes = do
    (src_width, src_height) ← work.peek_dimensions image_bytes format
    guard (check_source_resolution src_width src_height config.max_src_resolution_mp)
        source_too_large
    decoded ← work.decode_with_limits image_bytes format config.max_src_resolution_mp params
    let applied = params.autorotate && not (decoded.orientation == 0)
    let upright =
        if params.autorotate
        then work.apply_orientation decoded.orientation decoded.img
        else decoded.img
    let cut = crop_step params.crop (trim_step params.trim upright)
    encode_single_image cut (width cut, height cut) params decoded.metadata applied config
        watermark_bytes

  -- GIF and WebP can hold an animation.
  abbrev pub wants_animatable_output : ImageFormat → Bool
  wants_animatable_output webp = true
  wants_animatable_output gif = true
  wants_animatable_output _ = false

  -- A source that can be animated is read as such first.
  abbrev pub animation_of :
      Str → Option SourceFormat → ImageFormat → Step (Option (List DynamicImage × (ℕ × ℕ)))
  animation_of image_bytes none wanted = ok none
  animation_of image_bytes (some format) wanted =
      if wants_animatable_output wanted then work.decode_animation image_bytes format else ok none

  -- One frame is a still image without metadata; no frame is a panic.
  unfoldable pub process_frames :
      List DynamicImage → ℕ × ℕ → ResizeQuery fl → OutputConfig → Option Str → Step (List ℕ × Str)
  unfolding encode_single_image
  process_frames [] src params config watermark_bytes = err panicked
  process_frames (frame ∷ []) src params config watermark_bytes =
      encode_single_image frame src params (record { icc_profile = none; exif = none }) false config
        watermark_bytes
  process_frames (frame ∷ next ∷ frames) (src_width, src_height) params config watermark_bytes =
      work.encode_animation (frame ∷ next ∷ frames) src_width src_height params

  -- The match on the decoded animation.
  unfoldable pub process_source :
      Option (List DynamicImage × (ℕ × ℕ))
      → Str
      → Option SourceFormat
      → ResizeQuery fl
      → OutputConfig
      → Option Str
      → Step (List ℕ × Str)
  unfolding process_frames process_still
  process_source (some (frames, src)) image_bytes format params config watermark_bytes =
      process_frames frames src params config watermark_bytes
  process_source none image_bytes format params config watermark_bytes =
      process_still image_bytes format params config watermark_bytes

  abbrev pub sized : Result TooLarge (Unit {0}) → Step (Unit {0})
  sized (ok u) = ok u
  sized (err e) = err (output_too_large e)

  -- `process_image_blocking_with_limits_and_watermark`.
  unfoldable pub process_image :
      Str → ResizeQuery fl → OutputConfig → Option Str → Step (List ℕ × Str)
  unfolding process_source
  process_image image_bytes params config watermark_bytes = do
    sized (check_output_dimensions fl params config.max_output)
    let format = detect_format_from_bytes image_bytes
    animation ← animation_of image_bytes format params.format
    process_source animation image_bytes format params config watermark_bytes
