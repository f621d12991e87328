-- ===== src/Download/Guarded.antt =====
-- What a download connects to, and how much it holds.
use image_resizer.Prelude.{
  >>=-AllOk_any, >>=-eq-ok, All, All-append, AllOk, Bool, Bool-cases, List, Option, Result, [],
  arith, err, false, guard-AllOk, inl, inr, length, length-append, ltb, none, not, ok, ok_or, refl,
  some, subst, suc, sym, true, zero, ℕ, ◌++◌, ◌+◌, ◌∙◌, ◌∷◌, ◌≡◌, ◌≤◌, ◌⊎◌,
}
use image_resizer.Text.{Str, codes, eqb_iff}
use image_resizer.SourceGuard.{IpAddr, IpNet, SourceRejected, is_blocked_ip_with_policy}
use image_resizer.SourceGuard.Allowlist.{UrlCrate, is_allowed_source, validate_scheme}
use image_resizer.Download.{
  Connection, DownloadConfig, DownloadError, Fetch, Network, Next, Response, announced_too_large,
  answered, bad_location, bad_status, checked_address, download_image, fetch_from, fetch_parsed,
  fetch_validated, final, follow, guarded, is_listed, is_redirection, is_success, matches_allowlist,
  no_host, no_location, no_port, policy, read_body, read_chunks, redirect, redirect_target, sent,
  too_large, visit,
}
use image_resizer.SourceGuard.Safety.{resolve_validated_addr-safe}

some-injective : {A : Type 0} {x y : A} → ◌≡◌ {A = Option A} (some x) (some y) → x ≡ y
some-injective h = cc

module _ (net : IpNet) (crate : UrlCrate) (world : Network net crate)
    (config : DownloadConfig) where
  open crate use {Url, scheme}

  -- The checks that a request has passed: its scheme, the configured sources, and the address under
  -- the policy, which allows private addresses only where the sources name the URL.
  pub record IsChecked (conn : Connection net crate world config) : Type 0 where
    pub web : (scheme conn.0 ≡ codes "http") ⊎ (scheme conn.0 ≡ codes "https")
    pub listed :
        (p : Str) (ps : List Str)
        → config.allowed_sources ≡ some (p ∷ ps)
        → is_allowed_source crate conn.0 (p ∷ ps) ≡ true
    pub open_address :
        is_blocked_ip_with_policy net conn.1.0
          (policy net crate world config (is_listed net crate world config conn.0))
        ≡ false

  matches_allowlist-is_listed :
      (url : Url) (allowed : Option (List Str)) (b : Bool)
      → matches_allowlist net crate world config url allowed ≡ ok b
      → (b ≡ elim allowed [ none ↦ false | some ps ↦ is_allowed_source crate url ps ])
        × ((p : Str) (ps : List Str)
            → allowed ≡ some (p ∷ ps)
            → is_allowed_source crate url (p ∷ ps) ≡ true)
  unfolding matches_allowlist is_allowed_source
  matches_allowlist-is_listed url none b e = (cc, λ p ps h. cc)
  matches_allowlist-is_listed url (some []) b e = (cc, λ p ps h. cc)
  matches_allowlist-is_listed url (some (p ∷ ps)) b e =
      elim (Bool-cases (is_allowed_source crate url (p ∷ ps))) [
        | inr refused ↦ absurd (ground (arith, refused))
        | inl allowed ↦
            let flag : b ≡ true = ground (arith, allowed) in
            (
              flag ∙ sym allowed,
              λ p' ps' same.
                  subst (λ qs. is_allowed_source crate url qs ≡ true) (some-injective same) allowed,
            )
      ]

  guarded-eq-ok :
      {A : Type 0} (m : Result SourceRejected A) (a : A)
      → guarded net crate world config m ≡ ok a
      → m ≡ ok a
  guarded-eq-ok (ok x) a h = cc
  guarded-eq-ok (err e) a h = cc

  validate_scheme-web :
      (url : Url) (u : Unit {0})
      → validate_scheme crate url ≡ ok u
      → (scheme url ≡ codes "http") ⊎ (scheme url ≡ codes "https")
  unfolding validate_scheme
  validate_scheme-web url u h =
      ground (arith, eqb_iff (scheme url) (codes "http"), eqb_iff (scheme url) (codes "https"))

  checked_address-IsChecked :
      (hop : ℕ) (url : Url) (addr : IpAddr × ℕ)
      → checked_address net crate world config hop url ≡ ok addr
      → IsChecked (url, addr)
  unfolding checked_address
  checked_address-IsChecked hop url addr e =
      let (u, is_web, e1) =
        >>=-eq-ok (guarded net crate world config (validate_scheme crate url)) _ e in
      let (b, matched, e2) =
        >>=-eq-ok (matches_allowlist net crate world config url config.allowed_sources) _ e1 in
      let (host, has_host, e3) = >>=-eq-ok (ok_or (crate.host_str url) no_host) _ e2 in
      let (port, has_port, e4) = >>=-eq-ok (ok_or (crate.port_or_known_default url) no_port) _ e3 in
      let (flag, named) = matches_allowlist-is_listed url config.allowed_sources b matched in
      let safe =
        (resolve_validated_addr-safe net (world.literal host) (world.lookup hop host port) host port
          (policy net crate world config b) addr (guarded-eq-ok _ addr e4)).0 in
      record {
        web = validate_scheme-web url u (guarded-eq-ok _ u is_web);
        listed = named;
        open_address =
            subst
              (λ l. is_blocked_ip_with_policy net addr.0 (policy net crate world config l) ≡ false)
              flag safe;
      }

  -- What holds of a fetch: every request was checked, they are at most `n`, and a response that is
  -- returned satisfies `P`.
  abbrev Sound : {A : Type 0} → ℕ → (A → Type 0) → Fetch net crate world config A → Type 0
  Sound n P (conns, result) = All IsChecked conns × (length conns ≤ n) × AllOk P result

  abbrev IsFinal : Response → Type 0
  IsFinal r = is_redirection r ≡ false

  abbrev IsNext : Next net crate world config → Type 0
  IsNext (final r) = IsFinal r
  IsNext (redirect url) = Unit

  answered-IsNext :
      (url : Url) (r : Option Response) → AllOk IsNext (answered net crate world config url r)
  unfolding answered redirect_target
  answered-IsNext url none = tt
  answered-IsNext url (some r) = elim (Bool-cases (is_redirection r)) [
    | inr stays ↦ rw stays stays
    | inl moves ↦ rw moves (
        >>=-AllOk_any IsNext (ok_or r.location no_location) _ (λ header.
          >>=-AllOk_any IsNext (ok_or header bad_location) _ (λ text.
            >>=-AllOk_any IsNext (ok_or (world.join url text) bad_location) _ (λ target. tt))))
  ]

  sent-Sound :
      (hop : ℕ) (url : Url) (target : Result DownloadError (IpAddr × ℕ))
      → ((addr : IpAddr × ℕ) → target ≡ ok addr → IsChecked (url, addr))
      → Sound 1 IsNext (sent net crate world config hop url target)
  sent-Sound hop url (err e) h = (tt, omega arith, tt)
  sent-Sound hop url (ok addr) h =
      ((h addr refl, tt), omega arith, answered-IsNext url (world.send hop url addr))

  visit-Sound : (hop : ℕ) (url : Url) → Sound 1 IsNext (visit net crate world config hop url)
  unfolding visit
  visit-Sound hop url =
      sent-Sound hop url (checked_address net crate world config hop url)
        (λ addr e. checked_address-IsChecked hop url addr e)

  follow-Sound :
      (n : ℕ) (m : Fetch net crate world config (Next net crate world config))
      (k : Url → Fetch net crate world config Response)
      → Sound 1 IsNext m
      → ((url : Url) → Sound n IsFinal (k url))
      → Sound (suc n) IsFinal (follow net crate world config m k)
  follow-Sound n (conns, err e) k (checked, few, _) rest = (checked, omega (arith, few), tt)
  follow-Sound n (conns, ok (final r)) k (checked, few, is_final) rest =
      (checked, omega (arith, few), is_final)
  follow-Sound n (conns, ok (redirect url)) k (checked, few, _) rest =
      let (later, fewer, ends) = rest url in
      (
        All-append IsChecked conns (k url).0 checked later,
        omega (arith, few, fewer, length-append conns (k url).0),
        ends,
      )

  fetch_from-Sound :
      (left hop : ℕ) (url : Url)
      → Sound left IsFinal (fetch_from net crate world config left hop url)
  unfolding fetch_from
  fetch_from-Sound zero hop url = (tt, omega arith, tt)
  fetch_from-Sound (suc left) hop url =
      follow-Sound left (visit net crate world config hop url) _ (visit-Sound hop url)
        (fetch_from-Sound left (suc hop))

  read_chunks-bounded :
      (buffer : Str) (chunks : List (Option Str))
      → length buffer ≤ config.max_image_size
      → AllOk
          (λ body. length body ≤ config.max_image_size)
          (read_chunks net crate world config (length buffer) buffer chunks)
  unfolding read_chunks
  read_chunks-bounded buffer [] h = h
  read_chunks-bounded buffer (none ∷ chunks) h = tt
  read_chunks-bounded buffer (some chunk ∷ chunks) h =
      elim (Bool-cases (ltb config.max_image_size (length buffer + length chunk))) [
        | inl over ↦ rw over tt
        | inr under ↦
            let whole = length-append buffer chunk in
            let fits : length (buffer ++ chunk) ≤ config.max_image_size = ground (arith, whole) in
            rw under (
              subst
                (λ total.
                  AllOk (λ body. length body ≤ config.max_image_size)
                    (read_chunks net crate world config total (buffer ++ chunk) chunks))
                whole (read_chunks-bounded (buffer ++ chunk) chunks fits))
      ]

  read_body-bounded :
      (r : Response)
      → AllOk (λ body. length body ≤ config.max_image_size) (read_body net crate world config r)
  unfolding read_body
  read_body-bounded r = guard-AllOk _ (is_success r) bad_status _ (
      guard-AllOk _ (not (announced_too_large net crate world config r.content_length)) too_large _
        (read_chunks-bounded [] r.chunks (omega arith)))

  fetch_parsed-Sound :
      (url : Option Url)
      → Sound (config.max_redirects + 1) IsFinal (fetch_parsed net crate world config url)
  fetch_parsed-Sound none = (tt, omega arith, tt)
  fetch_parsed-Sound (some current) = fetch_from-Sound (config.max_redirects + 1) 0 current

  -- Whatever the network answers, every request of a download was checked at its own hop, there are
  -- at most `max_redirects` + 1 of them, and a body that is returned is within the size limit.
  pub download_image-guarded :
      (url : Str)
      → (let (conns, result) = download_image net crate world config url in
          All IsChecked conns
          × (length conns ≤ config.max_redirects + 1)
          × AllOk (λ body. length body ≤ config.max_image_size) result)
  unfolding download_image fetch_validated
  download_image-guarded url =
      let (checked, few, _) = fetch_parsed-Sound (crate.parse url) in
      (
        checked,
        few,
        >>=-AllOk_any _ (fetch_validated net crate world config url).1 _ read_body-bounded,
      )
