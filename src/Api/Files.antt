-- ===== src/Api/Files.antt =====
-- src/modules/api/download.rs: the endpoint that serves stored files. The resize service behind it and
-- `str::to_lowercase` are parameters.
use image_resizer.Prelude.{
  List, Option, Result, ap, append_assoc, err, false, none, ok, refl, some, unwrap_or, ℕ, ◌++◌,
  ◌>>=◌, ◌∙◌, ◌∷◌, ◌≡◌,
}
use image_resizer.Prelude.Floats.{Floats}
use image_resizer.Text.{Str, codes}
use image_resizer.Text.Split.{rsplit_once, rsplit_once_lem}
use image_resizer.Models.Formats.{
  ImageFormat, avif, gif, jpg, parse_format, parse_format-show_format, png, show_format, webp,
}
use image_resizer.Models.Query.{ResizeQuery}
use image_resizer.Cache.{generate_key, hash_input}
use image_resizer.Image.Geometry.{ImageCrate}
use image_resizer.Image.Pipeline.{Metadata, OutputConfig, PixelWork, Step, default_avif_quality}
use image_resizer.Image.Pipeline.Stages.{encode_output, jpeg_output, webp_quality_of}
use image_resizer.Storage.KeyValidation.Generated.{extension-Lacks}
use image_resizer.Api.Errors.{
  CacheControl, Failure, Response, classify_download_error, immutable, into_response,
}

-- `key.rsplit('.').next()`.
unfoldable pub extension_of : Str → Str
unfolding rsplit_once
extension_of key = elim (rsplit_once b'.' key) [ none ↦ key | some (_, ext) ↦ ext ]

-- The match on the parsed extension.
unfoldable pub content_type_of : Option ImageFormat → Str
content_type_of (some jpg) = codes "image/jpeg"
content_type_of (some png) = codes "image/png"
content_type_of (some webp) = codes "image/webp"
content_type_of (some avif) = codes "image/avif"
content_type_of (some gif) = codes "image/gif"
content_type_of (some ImageFormat.auto) = codes "application/octet-stream"
content_type_of none = codes "application/octet-stream"

unfoldable pub content_type_for_key : Str → Str
unfolding extension_of content_type_of parse_format
content_type_for_key key = content_type_of (parse_format (extension_of key))

-- A served file, or the response of an error.
pub data FileResponse : Type 0 where
  file : CacheControl → Str → List ℕ → FileResponse
  failure : Response → FileResponse

unfoldable pub success_response : Str → List ℕ → FileResponse
unfolding content_type_for_key
success_response key bytes = file immutable (content_type_for_key key) bytes

unfoldable pub download_handler : (Str → Str) → (Str → Result Failure (List ℕ)) → Str → FileResponse
unfolding success_response classify_download_error into_response
download_handler to_lowercase download key = elim (download key) [
  | ok bytes ↦ success_response key bytes
  | err e ↦ failure (into_response (classify_download_error to_lowercase e))
]

-- The second component of a pair that ends a chain.
typed :
    (m : Step (List ℕ)) (t : Str) {bytes : List ℕ} {content_type : Str}
    → ◌>>=◌ {B = List ℕ × Str} m (λ b. ok (b, t)) ≡ ok (bytes, content_type)
    → t ≡ content_type
typed (ok b) t e = cc
typed (err why) t e = cc

module _ (fl : Floats) (im : ImageCrate) (work : PixelWork fl im) where
  extension_of-generate_key :
      (sha256_hex : List ℕ → Str) (sub_path : Str) (p : ResizeQuery fl)
      → extension_of (generate_key fl sha256_hex sub_path p) ≡ show_format p.format
  unfolding extension_of generate_key
  extension_of-generate_key sha256_hex sub_path p =
      let hash = sha256_hex (hash_input fl p) in
      rw (← append_assoc sub_path hash (b'.' ∷ show_format p.format)) (
        rw
          (
            rsplit_once_lem b'.' (sub_path ++ hash) (show_format p.format)
                (extension-Lacks p.format),
            extension_of,
          )
          refl)

  content_type-encode_output :
      (f : ImageFormat) (img : ImageCrate.DynamicImage im) (p : ResizeQuery fl)
      (config : OutputConfig) (metadata : Metadata) (bytes : List ℕ) (content_type : Str)
      → encode_output fl im work f img p config metadata ≡ ok (bytes, content_type)
      → content_type_of (some f) ≡ content_type
  unfolding encode_output content_type_of
  content_type-encode_output jpg img p config metadata bytes content_type e =
      typed (jpeg_output fl im work img p config metadata) _ e
  content_type-encode_output png img p config metadata bytes content_type e =
      typed (work.encode_png img metadata) _ e
  content_type-encode_output webp img p config metadata bytes content_type e =
      typed
        (work.encode_webp img (webp_quality_of fl im work p) (unwrap_or p.webp_lossless false)
          metadata)
        _ e
  content_type-encode_output avif img p config metadata bytes content_type e =
      typed (work.encode_avif img (unwrap_or p.quality default_avif_quality) metadata.exif) _ e
  content_type-encode_output gif img p config metadata bytes content_type e =
      typed (work.write_gif img) _ e
  content_type-encode_output ImageFormat.auto img p config metadata bytes content_type e = cc

  -- The content type that the encoder of a still image gives is the one that the file endpoint serves
  -- the image with, under the key of its query, whatever digest and sub-path the key has.
  pub served_type-encode_output :
      (sha256_hex : List ℕ → Str) (sub_path : Str) (img : ImageCrate.DynamicImage im)
      (p : ResizeQuery fl) (config : OutputConfig) (metadata : Metadata) (bytes : List ℕ)
      (content_type : Str)
      → encode_output fl im work p.format img p config metadata ≡ ok (bytes, content_type)
      → content_type_for_key (generate_key fl sha256_hex sub_path p) ≡ content_type
  unfolding content_type_for_key
  served_type-encode_output sha256_hex sub_path img p config metadata bytes content_type e =
      ap (λ ext. content_type_of (parse_format ext))
        (extension_of-generate_key sha256_hex sub_path p)
      ∙ ap content_type_of (parse_format-show_format p.format)
      ∙ content_type-encode_output p.format img p config metadata bytes content_type e
