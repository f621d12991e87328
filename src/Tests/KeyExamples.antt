-- ===== src/Tests/KeyExamples.antt =====
-- Examples for the cache key and the storage check.
use image_resizer.Cache.Framing.{IsShort}
use image_resizer.Models.Formats.{WatermarkPosition}
use image_resizer.Prelude.{
  [], All, List, all, arith, length, ltb, none, ok, refl, some, true, ℕ, ◌^◌, ◌↔◌, ◌∷◌, ◌≡◌, ◌≢◌,
}
use image_resizer.Models.Formats.{ImageFormat, show_format, show_resize_type, webp}
use image_resizer.Storage.KeyValidation.Generated.{
  IsHexDigest, split_key-generate_key, validate-generate_key,
}
use image_resizer.Storage.KeyValidation.Laws.{IsKey, validate_iff}
use image_resizer.Models.Query.{ResizeQuery, WatermarkQuery}
use image_resizer.Text.{Str, codes}
use image_resizer.Tests.Samples.{constant_digest, plain_codecs, whole_numbers, whole_numbers_laws}
use image_resizer.Url.Options.{default_options}
use image_resizer.Cache.{generate_key, hash_input}
use image_resizer.Cache.Injective.{canonical, hash_input-injective, hash_input-none_url}
use image_resizer.Url.Request.{into_resize_query}
use image_resizer.Cache.Fields.{key_fields}
use image_resizer.Storage.KeyValidation.{split_key, validate_cache_key}

abbrev sample_query : ℕ → ResizeQuery whole_numbers
sample_query blur =
    record (into_resize_query whole_numbers plain_codecs (record {
      options = default_options whole_numbers;
      source = record { url = codes "http://h/a"; format = webp };
    })) { blur_sigma = some blur }

pub constant_digest-IsHexDigest : IsHexDigest constant_digest
constant_digest-IsHexDigest input = (refl, refl)

IsShort-fields : (fs : List Str) → all (λ f. ltb (length f) (2 ^ 32)) fs ≡ true → All IsShort fs
IsShort-fields [] h = tt
IsShort-fields (f ∷ fs) h = ground (arith, IsShort-fields fs)

sample-IsShort : All IsShort (key_fields whole_numbers (sample_query 3))
unfolding key_fields into_resize_query show_resize_type image_resizer.Cache.Fields.format_text
    show_format image_resizer.Text.Numbers.show_nat image_resizer.Cache.Fields.show_bool
    image_resizer.Models.Query.show_gravity image_resizer.Text.Signed.show_int
sample-IsShort = IsShort-fields (key_fields whole_numbers (sample_query 3)) refl

hash_input-injective_example :
    canonical whole_numbers (sample_query 3) ≡ canonical whole_numbers (sample_query 3)
hash_input-injective_example =
    hash_input-injective whole_numbers whole_numbers_laws (sample_query 3) (sample_query 3)
      sample-IsShort sample-IsShort refl

validate-generate_key_example :
    (validate_cache_key
        (generate_key whole_numbers constant_digest (codes "v/") (sample_query 3))
        (codes "v/")
      ≡ ok tt)
    ↔ ((sample_query 3).format ≢ ImageFormat.auto)
validate-generate_key_example =
    validate-generate_key whole_numbers constant_digest constant_digest-IsHexDigest (codes "v/")
      (sample_query 3) refl

split_key-generate_key_example :
    split_key (generate_key whole_numbers constant_digest (codes "v/") (sample_query 3))
    ≡ some (
      codes "v/",
      constant_digest (hash_input whole_numbers (sample_query 3)),
      show_format (sample_query 3).format,
    )
split_key-generate_key_example =
    split_key-generate_key whole_numbers constant_digest constant_digest-IsHexDigest (codes "v/")
      (sample_query 3)

validate_iff_example :
    (validate_cache_key (codes "v/0.jpg") (codes "v/") ≡ ok tt)
    ↔ ((hash : Str) × (ext : Str) × IsKey (codes "v/") (codes "v/0.jpg") hash ext)
validate_iff_example = validate_iff (codes "v/") (codes "v/0.jpg")

abbrev sample_watermark : WatermarkQuery whole_numbers
sample_watermark = record {
  opacity = 1;
  position = WatermarkPosition.center;
  x_offset = 0;
  y_offset = 0;
  scale = 0;
  url = none;
  size = none;
  rotate = 0;
  shadow = none;
}

hash_input-none_url_example :
    hash_input whole_numbers (record (sample_query 3) {
      watermark = some (record sample_watermark { url = some (codes "None") });
    })
    ≡ hash_input whole_numbers
        (record (sample_query 3) { watermark = some (record sample_watermark { url = none }) })
hash_input-none_url_example = hash_input-none_url whole_numbers (sample_query 3) sample_watermark
