-- ===== src/SourceGuard/Allowlist.antt =====
-- `validate_scheme`, `matches_allowed_prefix` and `is_allowed_source` of source_guard.rs.
use image_resizer.Prelude.{
  Bool, List, Option, Result, [], false, guard, none, some, true, ℕ, ◌&&◌, ◌++◌, ◌==◌, ◌||◌, ◌∷◌,
  ◌≡◌, ◌⊎◌,
}
use image_resizer.Text.{Str, codes, eqb, strip_prefix}
use image_resizer.SourceGuard.{SourceRejected, unsupported_scheme}

-- The package url: a parsed URL with the parts that the guard reads.
pub record UrlCrate : Type 1 where
  pub Url : Type 0
  pub parse : Str → Option Url
  pub scheme : Url → Str
  pub host_str : Url → Option Str
  pub port_or_known_default : Url → Option ℕ
  pub path : Url → Str

abbrev pub same_text : Option Str → Option Str → Bool
same_text (some a) (some b) = eqb a b
same_text _ _ = false

abbrev pub same_port : Option ℕ → Option ℕ → Bool
same_port none none = true
same_port (some a) (some b) = a == b
same_port _ _ = false

abbrev pub starts_with : Str → Str → Bool
starts_with prefix s = elim (strip_prefix prefix s) [ none ↦ false | some _ ↦ true ]

module _ (crate : UrlCrate) where
  open crate use {Url, parse, scheme, host_str, port_or_known_default, path}

  unfoldable pub validate_scheme : Url → Result SourceRejected (Unit {0})
  validate_scheme url =
      guard (eqb (scheme url) (codes "http") || eqb (scheme url) (codes "https"))
        (unsupported_scheme (scheme url))

  -- `url.host_str().is_some()` and the equality of the hosts are one test.
  abbrev pub matches : Url → Url → Bool
  matches url prefix_url =
      eqb (scheme url) (scheme prefix_url)
      && same_text (host_str url) (host_str prefix_url)
      && same_port (port_or_known_default url) (port_or_known_default prefix_url)
      && starts_with (path prefix_url) (path url)

  unfoldable pub matches_allowed_prefix : Url → Str → Bool
  matches_allowed_prefix url prefix = elim (parse prefix) [
    | none ↦ false
    | some prefix_url ↦ matches url prefix_url
  ]

  unfoldable pub is_allowed_source : Url → List Str → Bool
  unfolding matches_allowed_prefix
  is_allowed_source url [] = false
  is_allowed_source url (prefix ∷ allowed) =
      matches_allowed_prefix url prefix || is_allowed_source url allowed

  -- How an allowed URL lies under the URL of a listed prefix.
  pub record IsUnder (url prefix_url : Url) : Type 0 where
    pub same_scheme : scheme url ≡ scheme prefix_url
    pub same_host : (host : Str) × (host_str url ≡ some host) × (host_str prefix_url ≡ some host)
    pub same_port : port_or_known_default url ≡ port_or_known_default prefix_url
    pub below : (rest : Str) × (path url ≡ path prefix_url ++ rest)

  abbrev pub Lists : Str → List Str → Type 0
  Lists prefix [] = ⊥
  Lists prefix (p ∷ ps) = (p ≡ prefix) ⊎ Lists prefix ps
