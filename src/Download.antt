-- ===== src/Download.antt =====
-- `fetch_validated` and `download_image` of src/services/image/handler.rs: the redirects of a download
-- one by one, each behind the source guard, and the limit on the body. The network is a parameter,
-- whose answers may differ from hop to hop. The semaphore that bounds concurrent downloads is left
-- out, and so are the texts of the errors.
pub mod Guarded
use image_resizer.Prelude.{
  Bool, List, Option, Result, [], err, false, guard, if◌then◌else◌, leb, length, ltb, none, not, ok,
  ok_or, some, suc, true, zero, ℕ, ◌&&◌, ◌++◌, ◌+◌, ◌>>=◌, ◌>>◌, ◌∷◌,
}
use image_resizer.Text.{Str}
use image_resizer.SourceGuard.{
  IpAddr, IpNet, Policy, SourceRejected, not_allowlisted, resolve_validated_addr,
}
use image_resizer.SourceGuard.Allowlist.{UrlCrate, is_allowed_source, validate_scheme}

-- The fields of `PerformanceConfig` that a download reads.
pub record DownloadConfig : Type 0 where
  pub max_redirects : ℕ
  pub max_image_size : ℕ
  pub allowed_sources : Option (List Str)
  pub allow_loopback_source_addresses : Bool
  pub allow_link_local_source_addresses : Bool

-- A response: the status, the `Location` header, which may be no text, the announced length, and the
-- chunks of the body.
pub record Response : Type 0 where
  pub status : ℕ
  pub location : Option (Option Str)
  pub content_length : Option ℕ
  pub chunks : List (Option Str)

pub data DownloadError : Type 0 where
  rejected : SourceRejected → DownloadError
  invalid_url no_host no_port request_failed no_location bad_location : DownloadError
  too_many_redirects bad_status too_large streaming_failed : DownloadError

-- `Url::join` and `to_string` of the package url; for each hop, the literal that a host is, what the
-- DNS says, and what a request to a pinned address gives.
pub record Network (net : IpNet) (crate : UrlCrate) : Type 0 where
  pub join : UrlCrate.Url crate → Str → Option (UrlCrate.Url crate)
  pub show_url : UrlCrate.Url crate → Str
  pub literal : Str → Option IpAddr
  pub lookup : ℕ → Str → ℕ → Option (List (IpAddr × ℕ))
  pub send : ℕ → UrlCrate.Url crate → IpAddr × ℕ → Option Response

-- `StatusCode::is_redirection` and `is_success`.
abbrev pub is_redirection : Response → Bool
is_redirection r = leb 300 r.status && ltb r.status 400

abbrev pub is_success : Response → Bool
is_success r = leb 200 r.status && ltb r.status 300

module _ (net : IpNet) (crate : UrlCrate) (world : Network net crate)
    (config : DownloadConfig) where
  open crate use {Url, parse, host_str, port_or_known_default}
  open world use {join, show_url, literal, lookup, send}

  -- A request that was sent: the URL and the address that it was pinned to.
  abbrev pub Connection : Type 0
  Connection = Url × (IpAddr × ℕ)

  abbrev pub Fetch : Type 0 → Type 0
  Fetch A = List Connection × Result DownloadError A

  -- Whether the URL is named by the configured sources.
  abbrev pub is_listed : Url → Bool
  is_listed url = elim config.allowed_sources [
    | none ↦ false
    | some allowed ↦ is_allowed_source crate url allowed
  ]

  -- `source_matches_allowlist`: with sources configured, a URL that they do not name is refused.
  unfoldable pub matches_allowlist : Url → Option (List Str) → Result DownloadError Bool
  unfolding is_allowed_source
  matches_allowlist url none = ok false
  matches_allowlist url (some []) = ok false
  matches_allowlist url (some (p ∷ ps)) =
      if is_allowed_source crate url (p ∷ ps)
      then ok true
      else err (rejected (not_allowlisted (show_url url)))

  abbrev pub policy : Bool → Policy
  policy source_matches_allowlist = record {
    allow_loopback = config.allow_loopback_source_addresses;
    allow_link_local = config.allow_link_local_source_addresses;
    allow_private = source_matches_allowlist;
  }

  abbrev pub guarded : {A : Type 0} → Result SourceRejected A → Result DownloadError A
  guarded (ok a) = ok a
  guarded (err e) = err (rejected e)

  -- The checks of a hop, up to the address.
  unfoldable pub checked_address : ℕ → Url → Result DownloadError (IpAddr × ℕ)
  unfolding validate_scheme matches_allowlist resolve_validated_addr
  checked_address hop url = do
    guarded (validate_scheme crate url)
    listed ← matches_allowlist url config.allowed_sources
    host ← ok_or (host_str url) no_host
    port ← ok_or (port_or_known_default url) no_port
    guarded
        (resolve_validated_addr net (literal host) (lookup hop host port) host port (policy listed))

  -- Where a hop leads.
  pub data Next : Type 0 where
    final : Response → Next
    redirect : Url → Next

  unfoldable pub redirect_target : Url → Response → Result DownloadError Next
  redirect_target url r = do
    header ← ok_or r.location no_location
    text ← ok_or header bad_location
    target ← ok_or (join url text) bad_location
    ok (redirect target)

  -- The response of a hop.
  unfoldable pub answered : Url → Option Response → Result DownloadError Next
  unfolding redirect_target
  answered url none = err request_failed
  answered url (some r) = if is_redirection r then redirect_target url r else ok (final r)

  -- One round of the loop.
  abbrev pub sent : ℕ → Url → Result DownloadError (IpAddr × ℕ) → Fetch Next
  sent hop url (err e) = ([], err e)
  sent hop url (ok addr) = ((url, addr) ∷ [], answered url (send hop url addr))

  unfoldable pub visit : ℕ → Url → Fetch Next
  unfolding checked_address answered
  visit hop url = sent hop url (checked_address hop url)

  -- A redirect goes on with the next round.
  abbrev pub follow : Fetch Next → (Url → Fetch Response) → Fetch Response
  follow (conns, err e) k = (conns, err e)
  follow (conns, ok (final r)) k = (conns, ok r)
  follow (conns, ok (redirect url)) k = (conns ++ (k url).0, (k url).1)

  -- The loop, for the rounds that are left.
  unfoldable pub fetch_from : ℕ → ℕ → Url → Fetch Response
  unfolding visit
  fetch_from zero hop url = ([], err too_many_redirects)
  fetch_from (suc left) hop url = follow (visit hop url) (fetch_from left (suc hop))

  abbrev pub fetch_parsed : Option Url → Fetch Response
  fetch_parsed none = ([], err invalid_url)
  fetch_parsed (some current) = fetch_from (config.max_redirects + 1) 0 current

  unfoldable pub fetch_validated : Str → Fetch Response
  unfolding fetch_from
  fetch_validated url = fetch_parsed (parse url)

  -- The loop over the body, with `total_len` and the buffer.
  unfoldable pub read_chunks : ℕ → Str → List (Option Str) → Result DownloadError Str
  read_chunks total buffer [] = ok buffer
  read_chunks total buffer (none ∷ chunks) = err streaming_failed
  read_chunks total buffer (some chunk ∷ chunks) =
      if ltb config.max_image_size (total + length chunk)
      then err too_large
      else read_chunks (total + length chunk) (buffer ++ chunk) chunks

  abbrev pub announced_too_large : Option ℕ → Bool
  announced_too_large none = false
  announced_too_large (some len) = ltb config.max_image_size len

  unfoldable pub read_body : Response → Result DownloadError Str
  unfolding read_chunks
  read_body r = do
    guard (is_success r) bad_status
    guard (not (announced_too_large r.content_length)) too_large
    read_chunks 0 [] r.chunks

  unfoldable pub download_image : Str → Fetch Str
  unfolding fetch_validated read_body
  download_image url = let (conns, fetched) = fetch_validated url in (conns, fetched >>= read_body)
