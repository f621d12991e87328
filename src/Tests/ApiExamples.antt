-- ===== src/Tests/ApiExamples.antt =====
-- Examples for the handler of a signed path.
use image_resizer.Prelude.{
  List, Option, [], ap, arith, drop, err, false, length, map, none, ok, refl, replicate, some, suc,
  true, ℕ, ◌++◌, ◌+◌, ◌-◌, ◌∷◌, ◌≡◌, ◌≢◌, ◌⊎◌,
}
use image_resizer.Text.{Str, codes, mem}
use image_resizer.Text.Split.{Lacks, contains, join, rsplit_once, split_on, split_once}
use image_resizer.Api.{ApiService, handle, resize_handler, verify_or_reject}
use image_resizer.Negotiation.{entries_of, resolve}
use image_resizer.Negotiation.Laws.{Answers, resolve-Answers}
use image_resizer.Tests.Samples.{plain_codecs, whole_numbers, whole_numbers_laws}
use image_resizer.Api.Errors.{AppError, status_code}
use image_resizer.Api.Laws.{Authorized, by_escape, by_signature}
use image_resizer.Signing.{Crypto, SigningConfig, enabled, sign}
use image_resizer.Signing.Laws.{CryptoLaws}
use image_resizer.Models.Formats.{ImageFormat, auto, parse_format}
use image_resizer.Api.Handling.{
  IsServed, Responds, handle-IsServed, handle-refused, resize_handler-Responds,
  signed_path-Authorized,
}
use image_resizer.Url.Request.{
  SignedRequest, expand_segments, into_resize_query, parse_with_config, source_index, split_request,
}
use image_resizer.Url.Presets.{default_preset, empty_registry, get}
use image_resizer.Url.Options.Parse.{parse_options}
use image_resizer.Url.Source.{parse_source}

-- A code of 32 equal bytes, written after eleven letters with 48 added to each byte.
abbrev letters : Str
letters = codes "xxxxxxxxxxx"

abbrev constant_crypto : Crypto
constant_crypto = record {
  hmac_sha256 = λ key message. replicate 32 7;
  base64_encode = λ bytes. letters ++ map (λ b. b + 48) bytes;
  base64_decode = λ s. some (map (λ c. c - 48) (drop 11 s));
}

map_back : (bytes : List ℕ) → map (λ c. c - 48) (map (λ b. b + 48) bytes) ≡ bytes
map_back [] = refl
map_back (b ∷ bytes) = let here : b + 48 - 48 ≡ b = omega arith in cc (here, map_back bytes)

shifted-Lacks : (bytes : List ℕ) → Lacks b'/' (map (λ b. b + 48) bytes)
unfolding contains
shifted-Lacks [] = refl
shifted-Lacks (b ∷ bytes) = ground (arith, shifted-Lacks bytes)

length-map : (f : ℕ → ℕ) (bytes : List ℕ) → length (map f bytes) ≡ length bytes
length-map f [] = refl
length-map f (b ∷ bytes) = ap suc (length-map f bytes)

constant_crypto_laws : CryptoLaws constant_crypto
unfolding contains
constant_crypto_laws = record {
  decode_encode = λ bytes. ap some (map_back bytes);
  encode_no_slash = λ bytes. shifted-Lacks bytes;
  encode_length = λ bytes h. omega (arith, length-map (λ b. b + 48) bytes, h);
  hmac_length = λ key message. refl;
}

abbrev local_config : SigningConfig
local_config = record { key = 1 ∷ []; salt = 2 ∷ []; allow_unsigned = true }

abbrev strict_config : SigningConfig
strict_config = record { key = 1 ∷ []; salt = 2 ∷ []; allow_unsigned = false }

abbrev same_case : Str → Str
same_case s = s

abbrev service_with :
    SigningConfig → ApiService whole_numbers plain_codecs constant_crypto same_case
service_with signing = record {
  resize = λ query. ok (codes "http://cdn/k.jpg");
  signing = signing;
  presets = empty_registry;
  allowed_options = none;
}

abbrev unsigned_path : Str
unsigned_path = codes "/unsigned/plain/http:%2F%2Fh%2Fa.auto"

handle-IsServed_example :
    IsServed whole_numbers whole_numbers_laws plain_codecs constant_crypto same_case
      (service_with local_config)
      unsigned_path
      none
      (codes "http://cdn/k.jpg")
      true
unfolding handle split_request split_once image_resizer.Url.Request.parse_with_config
    image_resizer.Url.Request.expand_segments image_resizer.Url.Request.source_index split_on
    image_resizer.Url.Options.Parse.parse_options image_resizer.Url.Presets.default_preset
    image_resizer.Url.Presets.get image_resizer.Url.Source.parse_source
    image_resizer.Text.Split.rsplit_once image_resizer.Text.Split.join image_resizer.Text.mem
    image_resizer.Models.Formats.parse_format resolve image_resizer.Url.Request.into_resize_query
handle-IsServed_example =
    handle-IsServed whole_numbers whole_numbers_laws plain_codecs constant_crypto same_case
      (service_with local_config) unsigned_path none (codes "http://cdn/k.jpg") true refl

abbrev unsigned_request : SignedRequest
unsigned_request = record {
  signature_segment = codes "unsigned";
  signed_path = codes "/plain/http:%2F%2Fh%2Fa.auto";
  remainder_segments = codes "plain" ∷ codes "http:%2F%2Fh%2Fa.auto" ∷ [];
}

not-Authorized : ¬ Authorized constant_crypto strict_config unsigned_request
not-Authorized (by_escape same on) = cc
not-Authorized (by_signature apart on decodes) = apart refl

handle-refused_example :
    (why : AppError) × (status_code why ≡ 403)
    × ((service : ApiService whole_numbers plain_codecs constant_crypto same_case)
          (accept : Option Str)
        → service.signing ≡ strict_config
        → handle whole_numbers plain_codecs constant_crypto same_case service unsigned_path accept
          ≡ err why)
unfolding split_request image_resizer.Text.Split.split_once image_resizer.Text.Split.split_on
handle-refused_example =
    handle-refused whole_numbers whole_numbers_laws plain_codecs constant_crypto same_case
      strict_config unsigned_path unsigned_request refl not-Authorized

signed_path-Authorized_example :
    (signed : SignedRequest) × (split_request
        (b'/' ∷ (sign constant_crypto (1 ∷ []) (2 ∷ []) (codes "/plain/a") ++ codes "/plain/a"))
      ≡ ok signed)
    × Authorized constant_crypto strict_config signed
    × (verify_or_reject constant_crypto strict_config signed ≡ ok tt)
unfolding image_resizer.Signing.enabled
signed_path-Authorized_example =
    signed_path-Authorized whole_numbers whole_numbers_laws plain_codecs constant_crypto same_case
      constant_crypto_laws strict_config b'p' (codes "lain/a") refl

resize_handler-Responds_example :
    Responds whole_numbers whole_numbers_laws plain_codecs constant_crypto same_case
      (λ s. true)
      (handle whole_numbers plain_codecs constant_crypto same_case
        (service_with local_config)
        unsigned_path
        none)
      (resize_handler whole_numbers plain_codecs constant_crypto same_case
        (λ s. true)
        (service_with local_config)
        unsigned_path
        none)
resize_handler-Responds_example =
    resize_handler-Responds whole_numbers whole_numbers_laws plain_codecs constant_crypto same_case
      (λ s. true) (service_with local_config) unsigned_path none

abbrev webp_header : Option Str
webp_header = some (codes "image/webp, image/avif;q=0")

resolve-Answers_example :
    ((ImageFormat.auto ≢ ImageFormat.auto)
      × (resolve whole_numbers ImageFormat.auto webp_header ≡ (ImageFormat.auto, false)))
    ⊎ ((ImageFormat.auto ≡ ImageFormat.auto)
        × Answers whole_numbers whole_numbers_laws
            (entries_of whole_numbers webp_header)
            (resolve whole_numbers ImageFormat.auto webp_header).0
        × ((f : ImageFormat)
            → Answers whole_numbers whole_numbers_laws (entries_of whole_numbers webp_header) f
            → f ≡ (resolve whole_numbers ImageFormat.auto webp_header).0)
        × ((resolve whole_numbers ImageFormat.auto webp_header).1 ≡ true))
resolve-Answers_example =
    resolve-Answers whole_numbers whole_numbers_laws ImageFormat.auto webp_header
