-- ===== src/Image/Pipeline/Encoded.antt =====
-- What `encode_single_image` of src/services/image/handler.rs hands to an encoder.
use image_resizer.Prelude.{
  &&-eq-true, >>=-eq-ok, AllSome, Bool, Bool-cases, List, Option, Option-cases, ap, arith, false,
  guard-eq-ok, inl, inr, leb, leb→le, none, ok, refl, some, sym, true, ℕ, ◌∙◌, ◌≡◌, ◌≤◌,
}
use image_resizer.Prelude.Floats.{Floats}
use image_resizer.Text.{Str}
use image_resizer.Models.Query.{ResizeQuery, Rgb, WatermarkQuery}
use image_resizer.Models.Formats.{ImageFormat, avif, gif, jpg, png, webp}
use image_resizer.Image.Geometry.{ImageCrate}
use image_resizer.Image.Detect.{avif, gif, png}
use image_resizer.Image.Pipeline.{Metadata, OutputConfig, PixelWork, Step, final_too_large}
use image_resizer.Image.Pipeline.Stages.{
  alpha_step, background_of, encode_output, encode_single_image, final_fits, forwarded_exif,
  lay_out, watermark_step,
}
use image_resizer.Image.Exif.{neutralize_exif_orientation}

-- Two images have the same size.
abbrev pub SameSize :
    (im : ImageCrate) → ImageCrate.DynamicImage im → ImageCrate.DynamicImage im → Type 0
SameSize im a b = (im.width a ≡ im.width b) × (im.height a ≡ im.height b)

-- Drawing over an image and changing its colours leave its size.
pub record SizeLaws (fl : Floats) (im : ImageCrate) (work : PixelWork fl im) : Type 0 where
  pub watermark_size :
      (img : ImageCrate.DynamicImage im) (bytes : Str) (w : WatermarkQuery fl)
      (out : ImageCrate.DynamicImage im)
      → work.apply_watermark img bytes w ≡ ok out
      → SameSize im out img
  pub flatten_size :
      (img : ImageCrate.DynamicImage im) (b : Rgb)
      → SameSize im (work.flatten_onto_background img b) img
  pub normalize_size :
      (img : ImageCrate.DynamicImage im) (b : Rgb)
      → SameSize im (work.normalize_transparent_pixels img b) img

module _ (fl : Floats) (im : ImageCrate) (work : PixelWork fl im) (laws : SizeLaws fl im work) where
  open im use {DynamicImage, width, height, has_alpha}

  -- The EXIF block of the output against that of the source: none if metadata is stripped; otherwise
  -- the source's if the orientation was not applied to the pixels, and the source's with its
  -- orientation reset if it was. It is lost only if the reset fails.
  pub record IsForwarded (params : ResizeQuery fl) (applied : Bool) (source out : Option Str)
      : Type 0 where
    pub stripped : params.strip_metadata ≡ true → out ≡ none
    pub kept : params.strip_metadata ≡ false → applied ≡ false → out ≡ source
    pub reset :
        applied ≡ true
        → AllSome
            (λ bytes.
              (raw : Str) × (source ≡ some raw) × (neutralize_exif_orientation raw ≡ some bytes))
            out
    pub lost :
        params.strip_metadata ≡ false
        → applied ≡ true
        → out ≡ none
        → AllSome (λ raw. neutralize_exif_orientation raw ≡ none) source

  -- What an encoder was given: an image within the maximal output size, and the metadata.
  pub record IsEncoded (params : ResizeQuery fl) (config : OutputConfig) (applied : Bool)
      (source : Option Str) (out : List ℕ × Str) : Type 0 where
    pub img : DynamicImage
    pub metadata : Metadata
    pub encodes : encode_output fl im work params.format img params config metadata ≡ ok out
    pub wide : width img ≤ config.max_output.0
    pub high : height img ≤ config.max_output.1
    pub exif : IsForwarded params applied source metadata.exif

  recoloured-size :
      (img : DynamicImage) (format : ImageFormat) (b : Rgb)
      → SameSize im
          (elim format [
            | jpg ↦ work.flatten_onto_background img b
            | _ ↦ work.normalize_transparent_pixels img b
          ])
          img
  recoloured-size img jpg b = laws.flatten_size img b
  recoloured-size img png b = laws.normalize_size img b
  recoloured-size img webp b = laws.normalize_size img b
  recoloured-size img avif b = laws.normalize_size img b
  recoloured-size img gif b = laws.normalize_size img b
  recoloured-size img ImageFormat.auto b = laws.normalize_size img b

  alpha_step-size :
      (img : DynamicImage) (format : ImageFormat) (b : Rgb)
      → SameSize im (alpha_step fl im work img format b) img
  unfolding alpha_step
  alpha_step-size img format b = elim (Bool-cases (has_alpha img)) [
    | inr opaque ↦ rw opaque (refl, refl)
    | inl clear ↦ rw clear (recoloured-size img format b)
  ]

  same_image :
      (img out : DynamicImage) → ◌≡◌ {A = Step DynamicImage} (ok img) (ok out) → SameSize im out img
  same_image img out e = let same : img ≡ out = cc in (ap width (sym same), ap height (sym same))

  watermark_step-size :
      (img : DynamicImage) (bytes : Option Str) (w : Option (WatermarkQuery fl))
      (out : DynamicImage)
      → watermark_step fl im work img bytes w ≡ ok out
      → SameSize im out img
  unfolding watermark_step
  watermark_step-size img (some bytes) (some w) out e = laws.watermark_size img bytes w out e
  watermark_step-size img none w out e = same_image img out e
  watermark_step-size img (some bytes) none out e = same_image img out e

  reset_exif :
      (strip : Bool) (source : Option Str)
      → AllSome
          (λ bytes.
            (raw : Str) × (source ≡ some raw) × (neutralize_exif_orientation raw ≡ some bytes))
          (forwarded_exif fl im work strip true source)
  unfolding forwarded_exif
  reset_exif true source = tt
  reset_exif false none = tt
  reset_exif false (some raw) = elim (Option-cases (neutralize_exif_orientation raw)) [
    | inl failed ↦ rw failed tt
    | inr (bytes, patched) ↦ rw patched (raw, refl, patched)
  ]

  kept_exif : (source : Option Str) → forwarded_exif fl im work false false source ≡ source
  unfolding forwarded_exif
  kept_exif none = refl
  kept_exif (some raw) = refl

  lost_exif :
      (source : Option Str)
      → forwarded_exif fl im work false true source ≡ none
      → AllSome (λ raw. neutralize_exif_orientation raw ≡ none) source
  unfolding forwarded_exif
  lost_exif none e = tt
  lost_exif (some raw) e = e

  forwarded_exif-IsForwarded :
      (params : ResizeQuery fl) (applied : Bool) (source : Option Str)
      → IsForwarded params applied source
          (forwarded_exif fl im work params.strip_metadata applied source)
  unfolding forwarded_exif
  forwarded_exif-IsForwarded params applied source = record {
    stripped = λ strips. rw strips refl;
    kept = λ keeps skipped. rw keeps (rw skipped (kept_exif source));
    lost = λ keeps was_applied e. lost_exif source (
        sym (ap (λ b. forwarded_exif fl im work b true source) keeps)
        ∙ sym (ap (λ b. forwarded_exif fl im work params.strip_metadata b source) was_applied)
        ∙ e);
    reset = λ was_applied. rw was_applied (reset_exif params.strip_metadata source);
  }

  pub encode_single_image-IsEncoded :
      (img : DynamicImage) (src : ℕ × ℕ) (params : ResizeQuery fl) (metadata : Metadata)
      (applied : Bool) (config : OutputConfig) (watermark_bytes : Option Str) (out : List ℕ × Str)
      → encode_single_image fl im work img src params metadata applied config watermark_bytes
        ≡ ok out
      → IsEncoded params config applied metadata.exif out
  unfolding encode_single_image
  encode_single_image-IsEncoded img src params metadata applied config watermark_bytes out e =
      let (final_img, _, e1) = >>=-eq-ok (lay_out fl im work img src params) _ e in
      let (fits, e2) =
        guard-eq-ok (final_fits fl im work config final_img)
          (final_too_large (width final_img) (height final_img)) _ e1 in
      let (fits_w, fits_h) = &&-eq-true (leb (width final_img) config.max_output.0) _ fits in
      let (marked, marks, e3) =
        >>=-eq-ok (watermark_step fl im work final_img watermark_bytes params.watermark) _ e2 in
      let (marked_w, marked_h) =
        watermark_step-size final_img watermark_bytes params.watermark marked marks in
      let (plain_w, plain_h) =
        alpha_step-size marked params.format (background_of fl im work params) in
      record {
        img = alpha_step fl im work marked params.format (background_of fl im work params);
        metadata = _;
        encodes = e3;
        wide = omega (arith, leb→le _ _ fits_w, plain_w, marked_w);
        high = omega (arith, leb→le _ _ fits_h, plain_h, marked_h);
        exif = forwarded_exif-IsForwarded params applied metadata.exif;
      }
