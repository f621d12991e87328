-- ===== src/Api/Handling.antt =====
-- The handler of a signed path as a whole: what a request went through before it is served, and what
-- a refused request is told.
use image_resizer.Prelude.{
  >>=-eq-ok, Bool, Bool-cases, Option, Result, ap, arith, err, inl, inr, length, none, ok, refl,
  some, true, ℕ, ◌++◌, ◌∙◌, ◌∷◌, ◌≡◌, ◌≢◌, ◌≤◌,
}
use image_resizer.Prelude.Floats.{FloatLaws, Floats}
use image_resizer.Text.{Str, codes}
use image_resizer.Negotiation.{resolve}
use image_resizer.Api.{
  ApiService, handle, map_err, perform_resize, redirect_response, resize_handler, respond,
  verify_or_reject, with_format,
}
use image_resizer.Api.Laws.{Authorized, Authorized-passes, by_signature, verify_or_reject-Checks}
use image_resizer.Url.Codecs.{Codecs}
use image_resizer.Signing.{Crypto, SigningConfig, compute_signature, enabled, sign}
use image_resizer.Models.Formats.{ImageFormat}
use image_resizer.Url.Request.{
  ParsedRequest, SignedRequest, into_resize_query, parse_with_config, split_request,
}
use image_resizer.Models.Query.{ResizeQuery}
use image_resizer.Api.Errors.{
  AppError, Response, bad_request, classify_resize_error, forbidden, immutable, into_response,
  invalid_location, no_store, not_found, status_code, url_parse_error,
}
use image_resizer.Signing.Laws.{CryptoLaws}
use image_resizer.Negotiation.Laws.{resolve-ne-auto}
use image_resizer.Text.Split.{split_on}
use image_resizer.Url.Request.Path.{split_request_lem}

module _ {E F : Type 0} (f : E → F) where
  map_err-eq-ok : {A : Type 0} (m : Result E A) (a : A) → map_err f m ≡ ok a → m ≡ ok a
  map_err-eq-ok (ok x) a h = cc
  map_err-eq-ok (err e) a h = cc

module _ (fl : Floats) (laws : FloatLaws fl) (codecs : Codecs) (crypto : Crypto)
    (to_lowercase : Str → Str) where
  -- How a request was served.
  pub record IsServed (service : ApiService fl codecs crypto to_lowercase) (raw_path : Str)
      (accept : Option Str) (location : Str) (negotiated : Bool) : Type 0 where
    pub signed : SignedRequest
    pub parsed : ParsedRequest fl codecs
    pub query : ResizeQuery fl
    pub splits : split_request raw_path ≡ ok signed
    pub authorized : Authorized crypto service.signing signed
    pub parses :
        parse_with_config fl codecs service.presets service.allowed_options signed ≡ ok parsed
    pub same_source : query.url ≡ parsed.source.url
    pub concrete : query.format ≢ ImageFormat.auto
    pub chosen : resolve fl parsed.source.format accept ≡ (query.format, negotiated)
    pub resized : service.resize query ≡ ok location

  -- A request that is answered with a location split, was authorized, parsed, and was resized with
  -- the negotiated format, which is never `.auto`.
  pub handle-IsServed :
      (service : ApiService fl codecs crypto to_lowercase) (raw_path : Str) (accept : Option Str)
      (location : Str) (negotiated : Bool)
      → handle fl codecs crypto to_lowercase service raw_path accept ≡ ok (location, negotiated)
      → IsServed service raw_path accept location negotiated
  unfolding handle perform_resize into_resize_query
  handle-IsServed service raw_path accept location negotiated e =
      let (signed, e1, f1) = >>=-eq-ok (map_err url_parse_error (split_request raw_path)) _ e in
      let (done, e2, f2) = >>=-eq-ok (verify_or_reject crypto service.signing signed) _ f1 in
      let (parsed, e3, f3) =
        >>=-eq-ok
          (map_err url_parse_error
            (parse_with_config fl codecs service.presets service.allowed_options signed))
          _ f2 in
      let query = into_resize_query fl codecs parsed in
      let answer = resolve fl query.format accept in
      let (loc, e4, f4) =
        >>=-eq-ok
          (perform_resize fl codecs crypto to_lowercase service
            (with_format fl codecs crypto to_lowercase query answer.0))
          _ f3 in
      let served = with_format fl codecs crypto to_lowercase query answer.0 in
      let same_location : loc ≡ location = cc in
      let same_flag : answer.1 ≡ negotiated = cc in
      elim (verify_or_reject-Checks crypto service.signing signed) [
        | inr (_, why, _, refused) ↦ absurd cc
        | inl (authorized, _) ↦ record {
          signed = signed;
          parsed = parsed;
          query = served;
          splits = map_err-eq-ok url_parse_error _ _ e1;
          authorized = authorized;
          parses = map_err-eq-ok url_parse_error _ _ e3;
          same_source = refl;
          concrete = resolve-ne-auto fl laws query.format accept;
          chosen = ap (λ flag. (answer.0, flag)) same_flag;
          resized = map_err-eq-ok (classify_resize_error to_lowercase) _ _ e4 ∙ ap ok same_location;
        }
      ]

  -- A request that is not authorized is answered with 403, and the answer does not depend on the
  -- presets, the allowed options, the header and the service behind, nor on whether the path parses.
  pub handle-refused :
      (signing : SigningConfig) (raw_path : Str) (signed : SignedRequest)
      → split_request raw_path ≡ ok signed
      → ¬ Authorized crypto signing signed
      → (why : AppError) × (status_code why ≡ 403)
        × ((service : ApiService fl codecs crypto to_lowercase) (accept : Option Str)
            → service.signing ≡ signing
            → handle fl codecs crypto to_lowercase service raw_path accept ≡ err why)
  unfolding handle
  handle-refused signing raw_path signed splits apart =
      elim (verify_or_reject-Checks crypto signing signed) [
        | inl (authorized, _) ↦ absurd (apart authorized)
        | inr (_, why, forbids, refused) ↦
            (why, forbids, λ service accept same. rw splits (rw same (rw refused refl)))
      ]

  -- A path that is signed as a client signs it is authorized.
  pub signed_path-Authorized :
      CryptoLaws crypto
      → (signing : SigningConfig) (c : ℕ) (rest : Str) → enabled signing ≡ true
      → (signed : SignedRequest) × (split_request
            (b'/' ∷ (sign crypto signing.key signing.salt (b'/' ∷ c ∷ rest) ++ (b'/' ∷ c ∷ rest)))
          ≡ ok signed)
        × Authorized crypto signing signed
        × (verify_or_reject crypto signing signed ≡ ok tt)
  unfolding sign compute_signature
  signed_path-Authorized known signing c rest on =
      let path = b'/' ∷ c ∷ rest in
      let code = crypto.hmac_sha256 signing.key (signing.salt ++ path) in
      let sig = crypto.base64_encode code in
      let signed : SignedRequest = record {
        signature_segment = sig;
        signed_path = path;
        remainder_segments = split_on b'/' (c ∷ rest);
      } in
      let long = known.encode_length code (known.hmac_length signing.key (signing.salt ++ path)) in
      let apart : sig ≢ codes "unsigned" = λ same. absurd (omega (arith, long, ap length same)) in
      let authorized = by_signature apart on (known.decode_encode code) in
      (
        signed,
        split_request_lem sig c rest (known.encode_no_slash code),
        authorized,
        Authorized-passes crypto signing signed authorized,
      )

  -- How a response follows from the outcome of the handler.
  pub data Responds (is_header_value : Str → Bool)
      : Result AppError (Str × Bool) → Response → Type 0 where
    redirects :
        (location : Str) (negotiated : Bool) (r : Response)
        → is_header_value location ≡ true
        → r.status ≡ 301
        → r.cache_control ≡ immutable
        → r.location ≡ some location
        → r.vary_accept ≡ negotiated
        → Responds is_header_value (ok (location, negotiated)) r
    fails :
        (m : Result AppError (Str × Bool)) (r : Response)
        → 400 ≤ r.status
        → r.cache_control ≡ no_store
        → r.location ≡ none
        → Responds is_header_value m r

  into_response-fails :
      (is_header_value : Str → Bool) (m : Result AppError (Str × Bool)) (e : AppError)
      → Responds is_header_value m (into_response e)
  unfolding into_response status_code
  into_response-fails valid m (not_found _) = fails m _ (omega arith) refl refl
  into_response-fails valid m (bad_request _) = fails m _ (omega arith) refl refl
  into_response-fails valid m (forbidden _) = fails m _ (omega arith) refl refl
  into_response-fails valid m _ = fails m _ (omega arith) refl refl

  redirect_response-Responds :
      (is_header_value : Str → Bool) (location : Str) (negotiated : Bool)
      → Responds is_header_value
          (ok (location, negotiated))
          (redirect_response fl codecs crypto to_lowercase is_header_value location negotiated)
  unfolding redirect_response
  redirect_response-Responds valid location negotiated = elim (Bool-cases (valid location)) [
    | inl good ↦ rw good (redirects location negotiated _ good refl refl refl refl)
    | inr bad ↦ rw bad (into_response-fails valid _ invalid_location)
  ]

  respond-Responds :
      (is_header_value : Str → Bool) (outcome : Result AppError (Str × Bool))
      → Responds is_header_value outcome
          (respond fl codecs crypto to_lowercase is_header_value outcome)
  unfolding respond
  respond-Responds valid (ok (location, negotiated)) =
      redirect_response-Responds valid location negotiated
  respond-Responds valid (err e) = into_response-fails valid (err e) e

  -- A response may be cached only as the redirect to the location that the handler found. Every other
  -- response has an error status, says `no-store` and names no location.
  pub resize_handler-Responds :
      (is_header_value : Str → Bool) (service : ApiService fl codecs crypto to_lowercase)
      (raw_path : Str) (accept : Option Str)
      → Responds is_header_value
          (handle fl codecs crypto to_lowercase service raw_path accept)
          (resize_handler fl codecs crypto to_lowercase is_header_value service raw_path accept)
  unfolding resize_handler
  resize_handler-Responds valid service raw_path accept = respond-Responds valid _
