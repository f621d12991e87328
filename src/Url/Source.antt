-- ===== src/Url/Source.antt =====
-- src/modules/url/source.rs: the last part of the path, which names the source image and the output
-- format.
pub mod RoundTrip
use image_resizer.Prelude.{List, [], err, guard, if◌then◌else◌, ok, ok_or, ◌>>=◌, ◌>>◌, ◌∷◌}
use image_resizer.Text.{Str, codes, eqb, is_empty, mem}
use image_resizer.Text.Split.{join, rsplit_once}
use image_resizer.Url.{
  R, SourceReason, empty_source, invalid_base64, invalid_percent_encoding, invalid_source,
  invalid_utf8, missing_extension, not_single_segment, unrecognized_extension,
}
use image_resizer.Url.Codecs.{Codecs}
use image_resizer.Models.Formats.{ImageFormat, parse_format}
use image_resizer.Text.Utf8.{from_utf8}

pub record SourceSpec : Type 0 where
  pub url : Str
  pub format : ImageFormat

abbrev pub known_extensions : List Str
known_extensions =
    codes "jpg"
    ∷ codes "jpeg"
    ∷ codes "png"
    ∷ codes "webp"
    ∷ codes "avif"
    ∷ codes "gif"
    ∷ codes "auto"
    ∷ []

-- `split_extension`. The error of `ext.parse()` is the one for an unknown extension.
unfoldable pub split_extension : Str → R (Str × ImageFormat)
split_extension s = do
  (base, ext) ← ok_or (rsplit_once b'.' s) (invalid_source (missing_extension s))
  guard (mem ext known_extensions) (invalid_source (unrecognized_extension ext))
  format ← ok_or (parse_format ext) (invalid_source (unrecognized_extension ext))
  ok (base, format)

abbrev non_empty : Str → ImageFormat → R SourceSpec
non_empty url format =
    if is_empty url then err empty_source else ok (record { url = url; format = format })

module _ (codecs : Codecs) where
  open codecs use {base64_decode, url_decode}

  unfoldable pub parse_plain_source : List Str → R SourceSpec
  unfolding split_extension
  parse_plain_source [] = err empty_source
  parse_plain_source (s ∷ rest) = do
    (raw_url, format) ← split_extension (join b'/' (s ∷ rest))
    url ← ok_or (url_decode raw_url) (invalid_source invalid_percent_encoding)
    non_empty url format

  unfoldable pub parse_base64_source : List Str → R SourceSpec
  unfolding split_extension
  parse_base64_source (segment ∷ []) = do
    (encoded, format) ← split_extension segment
    decoded ← ok_or (base64_decode encoded) (invalid_source SourceReason.invalid_base64)
    url ← ok_or (from_utf8 decoded) (invalid_source SourceReason.invalid_utf8)
    non_empty url format
  parse_base64_source _ = err (invalid_source not_single_segment)

  unfoldable pub parse_source : List Str → R SourceSpec
  unfolding parse_plain_source parse_base64_source
  parse_source [] = err empty_source
  parse_source (first ∷ rest) =
      if eqb first (codes "plain")
      then parse_plain_source rest
      else parse_base64_source (first ∷ rest)
