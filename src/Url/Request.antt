-- ===== src/Url/Request.antt =====
-- `split`, `SignedRequest` and `ParsedRequest` of src/modules/url/mod.rs.
pub mod Path
pub mod Expand
use image_resizer.Prelude.{
  Bool, List, Option, [], drop, false, guard, if◌then◌else◌, none, not, ok, ok_or, some, suc, take,
  true, ℕ, ◌++◌, ◌==◌, ◌>>=◌, ◌>>◌, ◌||◌, ◌∷◌,
}
use image_resizer.Prelude.Floats.{Floats}
use image_resizer.Text.{Str, codes, eqb, is_empty}
use image_resizer.Text.Split.{split_on, split_once}
use image_resizer.Url.{R, malformed, option_not_allowed, unknown_preset}
use image_resizer.Url.Codecs.{Codecs}
use image_resizer.Url.Options.{ProcessingOptions}
use image_resizer.Url.Options.Parse.{args_of, code_of, looks_like_option, parse_options}
use image_resizer.Url.Presets.{
  AllowedOptions, PresetRegistry, default_preset, empty_registry, get, is_allowed,
}
use image_resizer.Url.Source.{SourceSpec, parse_source}
use image_resizer.Models.Query.{ResizeQuery, WatermarkQuery}

pub record SignedRequest : Type 0 where
  pub signature_segment : Str
  pub signed_path : Str
  pub remainder_segments : List Str

-- `strip_prefix('/').unwrap_or(raw_path)`.
abbrev pub without_slash : Str → Str
without_slash [] = []
without_slash (c ∷ s) = if c == b'/' then s else c ∷ s

-- `.filter(|(_, rest)| !rest.is_empty())`.
abbrev with_rest : Option (Str × Str) → Option (Str × Str)
with_rest none = none
with_rest (some (signature, rest)) = if is_empty rest then none else some (signature, rest)

unfoldable pub split_request : Str → R SignedRequest
split_request raw_path = do
  (signature, remainder) ←
      ok_or (with_rest (split_once b'/' (without_slash raw_path))) (malformed raw_path)
  ok (record {
    signature_segment = signature;
    signed_path = b'/' ∷ remainder;
    remainder_segments = split_on b'/' remainder;
  })

-- `*seg == "plain" || !looks_like_option(seg)`.
abbrev pub starts_source : Str → Bool
starts_source seg = eqb seg (codes "plain") || not (looks_like_option seg)

-- `.position(..).unwrap_or(segments.len())`.
unfoldable pub source_index : List Str → ℕ
source_index [] = 0
source_index (seg ∷ segs) = if starts_source seg then 0 else suc (source_index segs)

-- The loop over the names after `pr:`.
unfoldable pub expand_names : PresetRegistry → List Str → R (List Str)
expand_names presets [] = ok []
expand_names presets (name ∷ names) = do
  segments ← ok_or (get name presets) (unknown_preset name)
  more ← expand_names presets names
  ok (segments ++ more)

-- The loop over the option segments: each code has to be allowed, and presets are written out.
unfoldable pub expand_segments : PresetRegistry → AllowedOptions → List Str → R (List Str)
unfolding expand_names
expand_segments presets allowed [] = ok []
expand_segments presets allowed (seg ∷ segs) = do
  guard (is_allowed (code_of seg) allowed) (option_not_allowed (code_of seg))
  here ←
      if eqb (code_of seg) (codes "pr") then expand_names presets (args_of seg) else ok (seg ∷ [])
  more ← expand_segments presets allowed segs
  ok (here ++ more)

abbrev pub default_segments : PresetRegistry → List Str
default_segments presets = elim (default_preset presets) [ none ↦ [] | some segments ↦ segments ]

module _ (fl : Floats) (codecs : Codecs) where
  pub record ParsedRequest : Type 0 where
    pub options : ProcessingOptions fl
    pub source : SourceSpec

  -- `parse_with_config`.
  unfoldable pub parse_with_config :
      PresetRegistry → AllowedOptions → SignedRequest → R ParsedRequest
  parse_with_config presets allowed request = do
    let segments = request.remainder_segments
    let index = source_index segments
    expanded ← expand_segments presets allowed (take index segments)
    options ← parse_options fl codecs (default_segments presets ++ expanded)
    source ← parse_source codecs (drop index segments)
    ok (record { options = options; source = source })

  -- `parse`: no presets, every code allowed.
  abbrev pub parse_request : SignedRequest → R ParsedRequest
  parse_request = parse_with_config empty_registry none

  abbrev flag_or : Option Bool → Bool → Bool
  flag_or none d = d
  flag_or (some b) d = b

  abbrev watermark_query : ProcessingOptions fl → Option (WatermarkQuery fl)
  watermark_query o = elim o.watermark_opacity [
    | none ↦ none
    | some opacity ↦ some (record {
      opacity = opacity;
      position = o.watermark_position;
      x_offset = o.watermark_x_offset;
      y_offset = o.watermark_y_offset;
      scale = o.watermark_scale;
      url = o.watermark_url;
      size = o.watermark_size;
      rotate = o.watermark_rotate;
      shadow = o.watermark_shadow;
    })
  ]

  unfoldable pub into_resize_query : ParsedRequest → ResizeQuery fl
  into_resize_query p =
      let o = p.options in
      record {
        url = p.source.url;
        width = o.width;
        height = o.height;
        resize_type = o.resize_type;
        format = p.source.format;
        blur_sigma = o.blur_sigma;
        grayscale = o.grayscale;
        enlarge = flag_or o.enlarge false;
        quality = o.quality;
        jpeg_quality = o.jpeg_quality;
        webp_quality = o.webp_quality;
        webp_lossless = o.webp_lossless;
        jpeg_progressive = o.jpeg_progressive;
        jpeg_no_subsampling = o.jpeg_no_subsampling;
        max_bytes = o.max_bytes;
        background = o.background;
        autorotate = flag_or o.autorotate true;
        strip_metadata = flag_or o.strip_metadata true;
        crop = o.crop;
        gravity = o.gravity;
        rotate = o.rotate;
        flip_horizontal = o.flip_horizontal;
        flip_vertical = o.flip_vertical;
        trim = o.trim;
        extend = flag_or o.extend false;
        padding = o.padding;
        zoom_x = o.zoom_x;
        zoom_y = o.zoom_y;
        dpr = o.dpr;
        min_width = o.min_width;
        min_height = o.min_height;
        watermark = watermark_query o;
      }
