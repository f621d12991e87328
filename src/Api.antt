-- ===== src/Api.antt =====
-- src/modules/api/resize.rs and src/modules/utils/err.rs: the handler of a signed path and the
-- responses. The service behind it, `str::to_lowercase` and the validity of a header value are
-- parameters.
pub mod Errors
pub mod Laws
pub mod Handling
pub mod Files
use image_resizer.Negotiation.{resolve}
use image_resizer.Prelude.{Bool, Option, Result, err, if◌then◌else◌, not, ok, some, ◌>>=◌, ◌>>◌}
use image_resizer.Prelude.Floats.{Floats}
use image_resizer.Text.{Str, codes, eqb}
use image_resizer.Api.Errors.{
  AppError, Failure, Response, classify_resize_error, forbidden, immutable, into_response,
  invalid_location, url_parse_error,
}
use image_resizer.Url.Presets.{AllowedOptions, PresetRegistry}
use image_resizer.Url.Codecs.{Codecs}
use image_resizer.Signing.{Crypto, SigningConfig, enabled, verify_signature}
use image_resizer.Models.Formats.{ImageFormat}
use image_resizer.Models.Query.{ResizeQuery}
use image_resizer.Url.Request.{SignedRequest, into_resize_query, parse_with_config, split_request}

-- Why a request is forbidden.
abbrev pub unsigned_refused : AppError
unsigned_refused = forbidden (codes "unsigned requests are refused")

abbrev pub no_signing_key : AppError
no_signing_key = forbidden (codes "no signing key is configured")

abbrev pub invalid_signature : AppError
invalid_signature = forbidden (codes "invalid signature")

unfoldable pub verify_or_reject :
    Crypto → SigningConfig → SignedRequest → Result AppError (Unit {0})
unfolding verify_signature enabled eqb
verify_or_reject crypto signing signed =
    if eqb signed.signature_segment (codes "unsigned")
    then (if signing.allow_unsigned then ok tt else err unsigned_refused)
    else if not (enabled signing)
    then err no_signing_key
    else if verify_signature crypto signing.key signing.salt signed.signed_path
        signed.signature_segment
    then ok tt
    else err invalid_signature

-- `map_err`.
abbrev pub map_err : {E F A : Type 0} → (E → F) → Result E A → Result F A
map_err f (ok a) = ok a
map_err f (err e) = err (f e)

module _ (fl : Floats) (codecs : Codecs) (crypto : Crypto) (to_lowercase : Str → Str) where
  -- The fields of `ApiService` that the handler reads; `resize` is `ResizeService::resize`.
  pub record ApiService : Type 0 where
    pub resize : ResizeQuery fl → Result Failure Str
    pub signing : SigningConfig
    pub presets : PresetRegistry
    pub allowed_options : AllowedOptions

  unfoldable pub perform_resize : ApiService → ResizeQuery fl → Result AppError Str
  unfolding classify_resize_error
  perform_resize service query = map_err (classify_resize_error to_lowercase) (service.resize query)

  -- The query with the negotiated format.
  abbrev pub with_format : ResizeQuery fl → ImageFormat → ResizeQuery fl
  with_format query f = record query { format = f }

  unfoldable pub handle : ApiService → Str → Option Str → Result AppError (Str × Bool)
  unfolding verify_or_reject perform_resize
  handle service raw_path accept = do
    signed ← map_err url_parse_error (split_request raw_path)
    verify_or_reject crypto service.signing signed
    parsed ←
        map_err url_parse_error
          (parse_with_config fl codecs service.presets service.allowed_options signed)
    let query = into_resize_query fl codecs parsed
    let answer = resolve fl query.format accept
    location ← perform_resize service (with_format query answer.0)
    ok (location, answer.1)

  -- `redirect_response`, for the test of `HeaderValue::from_str`.
  unfoldable pub redirect_response : (Str → Bool) → Str → Bool → Response
  unfolding into_response
  redirect_response is_header_value location negotiated =
      if is_header_value location
      then record {
        status = 301;
        cache_control = immutable;
        vary_accept = negotiated;
        location = some location;
      }
      else into_response invalid_location

  -- The match of `resize_handler`.
  unfoldable pub respond : (Str → Bool) → Result AppError (Str × Bool) → Response
  unfolding redirect_response into_response
  respond is_header_value (ok (location, negotiated)) =
      redirect_response is_header_value location negotiated
  respond is_header_value (err e) = into_response e

  unfoldable pub resize_handler : (Str → Bool) → ApiService → Str → Option Str → Response
  unfolding handle respond
  resize_handler is_header_value service raw_path accept =
      respond is_header_value (handle service raw_path accept)
