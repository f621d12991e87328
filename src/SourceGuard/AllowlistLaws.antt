-- ===== src/SourceGuard/AllowlistLaws.antt =====
-- Lemmas on the allowlist of source_guard.rs.
use image_resizer.Prelude.{
  &&-eq-true, Bool-cases, List, Option, Option-cases, [], ap, arith, inl, inr, none, refl, some,
  sym, true, ℕ, ◌++◌, ◌∷◌, ◌≡◌,
}
use image_resizer.Text.{Str, eqb_iff, strip_prefix}
use image_resizer.SourceGuard.Allowlist.{
  IsUnder, Lists, UrlCrate, is_allowed_source, matches, matches_allowed_prefix, same_port,
  same_text, starts_with,
}
use image_resizer.Storage.KeyValidation.Laws.{strip_prefix-some}

module _ (crate : UrlCrate) where
  open crate use {Url, parse, scheme, host_str, port_or_known_default, path}

  same_text-eq :
      (a b : Option Str) → same_text a b ≡ true → (host : Str) × (a ≡ some host) × (b ≡ some host)
  same_text-eq none b e = absurd (ground arith)
  same_text-eq (some a) none e = absurd (ground arith)
  same_text-eq (some a) (some b) e = (a, refl, ap some (sym ((eqb_iff a b).0 e)))

  same_port-eq : (a b : Option ℕ) → same_port a b ≡ true → a ≡ b
  same_port-eq none none e = refl
  same_port-eq none (some b) e = absurd (ground arith)
  same_port-eq (some a) none e = absurd (ground arith)
  same_port-eq (some a) (some b) e = ground arith

  starts_with-append : (p s : Str) → starts_with p s ≡ true → (rest : Str) × (s ≡ p ++ rest)
  starts_with-append p s e = elim (Option-cases (strip_prefix p s)) [
    | inl none_there ↦ absurd (ground arith)
    | inr (rest, there) ↦ (rest, strip_prefix-some p s rest there)
  ]

  matches-IsUnder :
      (url prefix_url : Url) → matches crate url prefix_url ≡ true → IsUnder crate url prefix_url
  matches-IsUnder url prefix_url e =
      let (e₁, below) = &&-eq-true _ _ e in
      let (e₂, p) = &&-eq-true _ _ e₁ in
      let (s, h) = &&-eq-true _ _ e₂ in
      record {
        same_scheme = (eqb_iff (scheme url) (scheme prefix_url)).0 s;
        same_host = same_text-eq (host_str url) (host_str prefix_url) h;
        same_port = same_port-eq (port_or_known_default url) (port_or_known_default prefix_url) p;
        below = starts_with-append (path prefix_url) (path url) below;
      }

  -- An allowed URL has the scheme, the host and the port of a listed URL, and its path begins with the
  -- path of that URL.
  pub is_allowed_source-IsUnder :
      (url : Url) (allowed : List Str)
      → is_allowed_source crate url allowed ≡ true
      → (prefix : Str) × (prefix_url : Url) × Lists crate prefix allowed
        × (parse prefix ≡ some prefix_url)
        × IsUnder crate url prefix_url
  unfolding is_allowed_source
  is_allowed_source-IsUnder url [] e = absurd (ground arith)
  is_allowed_source-IsUnder url (p ∷ allowed) e =
      elim (Bool-cases (matches_allowed_prefix crate url p)) [
        | inl hit ↦ elim (Option-cases (parse p)) [
          | inl none_there ↦ absurd (ground arith)
          | inr (prefix_url, there) ↦
              (p, prefix_url, inl refl, there, matches-IsUnder url prefix_url (ground arith))
        ]
        | inr missed ↦
            let (prefix, prefix_url, listed, parsed, under) =
              is_allowed_source-IsUnder url allowed (ground arith) in
            (prefix, prefix_url, inr listed, parsed, under)
      ]
