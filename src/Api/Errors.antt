-- ===== src/Api/Errors.antt =====
-- src/modules/utils/err.rs: the application's errors, their status codes and responses. A text that
-- only explains is shortened; the message of a URL error stays as the error.
use image_resizer.Prelude.{Bool, Option, [], false, if◌then◌else◌, none, some, true, ℕ, ◌||◌, ◌∷◌}
use image_resizer.Text.{Str, codes, is_empty, strip_prefix}
use image_resizer.Url.{UrlParseError}

-- An `anyhow::Error`: the types that the program asks for by `downcast_ref`, and the rest, with the
-- printed message.
pub data Failure : Type 0 where
  source_rejected invalid_key other : Str → Failure

-- `Failure::to_string`.
abbrev pub message : Failure → Str
message (source_rejected msg) = msg
message (invalid_key msg) = msg
message (other msg) = msg

pub data AppError : Type 0 where
  not_found bad_request forbidden bad_gateway service_unavailable io_error : Str → AppError
  any_error : Failure → AppError
  -- `BadRequest` with the text of the error, and `AnyError` for a location that is no header value.
  bad_url : UrlParseError → AppError
  invalid_location : AppError

unfoldable pub status_code : AppError → ℕ
status_code (not_found _) = 404
status_code (bad_request _) = 400
status_code (bad_url _) = 400
status_code (forbidden _) = 403
status_code (bad_gateway _) = 502
status_code (service_unavailable _) = 503
status_code (io_error _) = 500
status_code (any_error _) = 500
status_code invalid_location = 500

unfoldable pub url_parse_error : UrlParseError → AppError
url_parse_error e = bad_url e

-- `str::contains(&str)`.
unfoldable pub contains_str : Str → Str → Bool
unfolding strip_prefix
contains_str needle [] = is_empty needle
contains_str needle (c ∷ s) = elim (strip_prefix needle (c ∷ s)) [
  | some _ ↦ true
  | none ↦ contains_str needle s
]

module _ (to_lowercase : Str → Str) where
  abbrev names : Str → Str → Bool
  names needle msg = contains_str needle (to_lowercase msg)

  unfoldable pub classify_download_error : Failure → AppError
  unfolding contains_str
  classify_download_error (invalid_key msg) = not_found msg
  classify_download_error e =
      if names (codes "not found") (message e)
      then not_found (message e)
      else bad_gateway (message e)

  unfoldable pub classify_resize_error : Failure → AppError
  unfolding contains_str
  classify_resize_error (source_rejected msg) = bad_request msg
  classify_resize_error e =
      let msg = message e in
      if names (codes "too large") msg || names (codes "decode") msg
      then bad_request msg
      else if names (codes "permit") msg || names (codes "cancelled") msg
      then service_unavailable msg
      else if names (codes "encode") msg
      then any_error e
      else bad_gateway msg

pub data CacheControl : Type 0 where
  -- "public, max-age=31536000, immutable" and "no-store"
  immutable no_store : CacheControl

-- A response by its status and the headers that the handlers set.
pub record Response : Type 0 where
  pub status : ℕ
  pub cache_control : CacheControl
  pub vary_accept : Bool
  pub location : Option Str

-- `IntoResponse for AppError`.
unfoldable pub into_response : AppError → Response
unfolding status_code
into_response e = record {
  status = status_code e;
  cache_control = no_store;
  vary_accept = false;
  location = none;
}
