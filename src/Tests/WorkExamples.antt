-- ===== src/Tests/WorkExamples.antt =====
-- Examples for a whole request of a resize.
use image_resizer.Prelude.{Bool, List, Result, [], false, none, ok, refl, true, ℕ, ◌∷◌, ◌≡◌, ◌≢◌}
use image_resizer.Text.{Str, codes}
use image_resizer.Storage.Backend.{Entries, in_memory}
use image_resizer.Resize.Work.{ImageService, WorkError, download, key_of, resize}
use image_resizer.Resize.Work.{resize}
use image_resizer.Storage.KeyValidation.{validate_cache_key}
use image_resizer.Cache.{generate_key}
use image_resizer.Models.Formats.{show_format}
use image_resizer.Url.Request.{into_resize_query}
use image_resizer.Text.{eqb, mem, strip_prefix}
use image_resizer.Text.Split.{split_once}
use image_resizer.Storage.Backend.{find, insert, memory_check, memory_upload, remove}
use image_resizer.Download.{download_image, matches_allowlist, redirect_target, visit}
use image_resizer.SourceGuard.Allowlist.{validate_scheme}
use image_resizer.SourceGuard.{is_blocked_ip_with_policy, resolve_validated_addr}
use image_resizer.Image.Sizing.{check_output_dimensions}
use image_resizer.Image.Detect.{check_source_resolution, detect_format_from_bytes}
use image_resizer.Image.Pipeline.Stages.{alpha_step, encode_output, watermark_step}
use image_resizer.Resize.Work.Answers.{Answers, resize-Answers, resize-again}
use image_resizer.Storage.Service.{get_cdn_url}
use image_resizer.Tests.Samples.{constant_digest, whole_numbers}
use image_resizer.Tests.ImageExamples.{one_dot, plain_query, size_work, small_config}
use image_resizer.Tests.GuardExamples.{bit_prefixes, download_config, one_host, two_hops}
use image_resizer.Tests.KeyExamples.{constant_digest-IsHexDigest}
use image_resizer.Tests.StorageExamples.{add_times}
use image_resizer.Models.Formats.{ImageFormat, webp}

abbrev image_service : Bool → ImageService whole_numbers one_dot size_work bit_prefixes one_host
image_service has_permit = record {
  download = download_config;
  output = small_config;
  watermark_url = none;
  source_network = two_hops;
  watermark_network = two_hops;
  has_permit = has_permit;
}

plain_query_settled : plain_query.format ≢ ImageFormat.auto
unfolding into_resize_query
plain_query_settled e = let clash : webp ≡ ImageFormat.auto = e in cc

abbrev serve : Bool → Entries → Entries × Result WorkError Str
serve has_permit s =
    resize whole_numbers one_dot size_work bit_prefixes one_host (in_memory add_times)
      (codes "http://c/") (codes "v/") (codes "v/") none constant_digest (image_service has_permit)
      7 plain_query s

abbrev sample_key : Str
sample_key =
    key_of whole_numbers one_dot size_work bit_prefixes one_host (in_memory add_times)
      (codes "http://c/") (codes "v/") (codes "v/") none constant_digest plain_query

abbrev location : Str
location = get_cdn_url (codes "http://c/") sample_key

abbrev filled : Entries
filled =
    (sample_key, record { content_type = codes "image/webp"; bytes = 3 ∷ []; expires_at = none })
    ∷ []

-- The first request follows a redirect, makes the result and stores it.
first_run : serve true [] ≡ (filled, ok location)
unfolding alpha_step check_output_dimensions check_source_resolution detect_format_from_bytes
    download_image encode_output eqb find generate_key insert into_resize_query
    is_blocked_ip_with_policy matches_allowlist mem memory_check memory_upload redirect_target
    remove resize resolve_validated_addr show_format split_once strip_prefix validate_cache_key
    validate_scheme visit watermark_step
first_run = refl

resize-Answers_example :
    Answers whole_numbers one_dot size_work bit_prefixes one_host add_times
      (codes "http://c/")
      (codes "v/")
      constant_digest
      constant_digest-IsHexDigest
      refl
      (image_service true)
      7
      plain_query
      []
      (serve true [])
resize-Answers_example =
    resize-Answers whole_numbers one_dot size_work bit_prefixes one_host add_times
      (codes "http://c/") (codes "v/") constant_digest constant_digest-IsHexDigest refl
      (image_service true) 7 plain_query [] plain_query_settled

resize-again_example :
    (serve false filled ≡ (filled, ok location))
    × (bytes : List ℕ) × (download (in_memory add_times) (codes "v/") 7 sample_key filled
        ≡ ok bytes)
resize-again_example =
    resize-again whole_numbers one_dot size_work bit_prefixes one_host add_times (codes "http://c/")
      (codes "v/") constant_digest constant_digest-IsHexDigest refl (image_service true)
      (image_service false) 7 plain_query [] filled location plain_query_settled first_run
