-- ===== src/Tests/GuardExamples.antt =====
-- Examples for the source guard.
use image_resizer.Download.{DownloadConfig, Network, Response, download_image}
use image_resizer.Download.Guarded.{IsChecked, download_image-guarded}
use image_resizer.Prelude.{
  inl, inr, All, AllOk, List, Option, [], arith, false, if◌then◌else◌, length, none, refl, some,
  true, ℕ, ◌++◌, ◌+◌, ◌-◌, ◌/◌, ◌==◌, ◌^◌, ◌↔◌, ◌∷◌, ◌≡◌, ◌≤◌, ◌⊎◌,
}
use image_resizer.SourceGuard.Literals.{parse_ipv4_literal}
use image_resizer.Text.{Str, codes, eqb, strip_prefix}
use image_resizer.SourceGuard.{
  IpAddr, IpNet, Policy, is_blocked_ip, is_blocked_ip_with_policy, octets, resolve_validated_addr,
  strict, v4,
}
use image_resizer.SourceGuard.Safety.{
  IpNetLaws, IsReserved, is_blocked_ip-v4_iff, resolve_validated_addr-safe,
}
use image_resizer.SourceGuard.Allowlist.{IsUnder, Lists, UrlCrate, is_allowed_source}
use image_resizer.SourceGuard.Numerals.{Spells, decimal, hexadecimal, octal, zero_digit}
use image_resizer.SourceGuard.Spellings.{parse_ipv4_literal-dotted}
use image_resizer.SourceGuard.AllowlistLaws.{is_allowed_source-IsUnder}
use image_resizer.SourceGuard.Literals.{parse_ipv4_literal}

abbrev pub bit_prefixes : IpNet
bit_prefixes = record {
  contains_v4 = λ n len ip. ip / 2 ^ (32 - len) == n / 2 ^ (32 - len);
  contains_v6 = λ n len ip. ip / 2 ^ (128 - len) == n / 2 ^ (128 - len);
}

bit_prefixes_laws : IpNetLaws bit_prefixes
bit_prefixes_laws = record { contains_v4_lem = λ n len ip. refl }

abbrev metadata_endpoint : ℕ
metadata_endpoint = octets 169 254 169 254

is_blocked_ip-v4_iff_example :
    (is_blocked_ip bit_prefixes (v4 metadata_endpoint) ≡ true) ↔ IsReserved metadata_endpoint
is_blocked_ip-v4_iff_example =
    is_blocked_ip-v4_iff bit_prefixes bit_prefixes_laws metadata_endpoint (omega arith)

abbrev private_allowed : Policy
private_allowed = record { allow_loopback = true; allow_link_local = false; allow_private = true }

abbrev public_addr : IpAddr × ℕ
public_addr = (v4 (octets 93 184 216 34), 443)

resolve_validated_addr-safe_example :
    (is_blocked_ip_with_policy bit_prefixes public_addr.0 strict ≡ false)
    × ((◌≡◌ {A = Option IpAddr} none (some public_addr.0))
        ⊎ ((rest : List (IpAddr × ℕ)) × (some (public_addr ∷ []) ≡ some (public_addr ∷ rest))))
unfolding resolve_validated_addr
resolve_validated_addr-safe_example =
    resolve_validated_addr-safe bit_prefixes none (some (public_addr ∷ [])) (codes "h") 443 strict
      public_addr refl

Spells-127 : Spells 127 (codes "0x7f")
Spells-127 = hexadecimal b'x' b'7' (b'f' ∷ []) (inl refl) (
  7,
  (omega arith, inl (omega arith, refl)),
  (15, (omega arith, inr (omega arith, inl refl)), refl),
)

Spells-0 : Spells 0 (codes "0")
Spells-0 = zero_digit refl

Spells-10 : Spells 10 (codes "012")
Spells-10 =
    octal b'1' (b'2' ∷ [])
      (1, (omega arith, inl (omega arith, refl)), (2, (omega arith, inl (omega arith, refl)), refl))

Spells-1 : Spells 1 (codes "1")
Spells-1 = decimal b'1' [] (λ e. omega arith) (1, (omega arith, inl (omega arith, refl)), refl)

parse_ipv4_literal-dotted_example :
    parse_ipv4_literal
      (codes "0x7f" ++ (b'.' ∷ (codes "0" ++ (b'.' ∷ (codes "012" ++ (b'.' ∷ codes "1"))))))
    ≡ some (octets 127 0 10 1)
parse_ipv4_literal-dotted_example =
    parse_ipv4_literal-dotted 127 0 10 1 (codes "0x7f") (codes "0") (codes "012") (codes "1")
      Spells-127 Spells-0 Spells-10 Spells-1 (omega arith) (omega arith) (omega arith) (omega arith)

-- A URL is its path; scheme, host and port are fixed.
abbrev pub one_host : UrlCrate
one_host = record {
  Url = Str;
  parse = λ s. some s;
  scheme = λ u. codes "http";
  host_str = λ u. some (codes "h");
  port_or_known_default = λ u. some 80;
  path = λ u. u;
}

is_allowed_source-IsUnder_example :
    (prefix : Str) × (prefix_url : Str) × Lists one_host prefix (codes "/a" ∷ [])
    × (◌≡◌ {A = Option Str} (some prefix) (some prefix_url))
    × IsUnder one_host (codes "/ab") prefix_url
unfolding is_allowed_source eqb strip_prefix
is_allowed_source-IsUnder_example =
    is_allowed_source-IsUnder one_host (codes "/ab") (codes "/a" ∷ []) refl

abbrev pub download_config : DownloadConfig
download_config = record {
  max_redirects = 1;
  max_image_size = 5;
  allowed_sources = none;
  allow_loopback_source_addresses = false;
  allow_link_local_source_addresses = false;
}

-- The first answer redirects, the second has a body of three bytes in two chunks.
abbrev answer : ℕ → Response
answer hop =
    if hop == 0
    then record {
      status = 302;
      location = some (some (codes "/b"));
      content_length = none;
      chunks = [];
    }
    else record {
      status = 200;
      location = none;
      content_length = some 3;
      chunks = some (1 ∷ 2 ∷ []) ∷ some (3 ∷ []) ∷ [];
    }

abbrev pub two_hops : Network bit_prefixes one_host
two_hops = record {
  join = λ url s. some s;
  show_url = λ url. url;
  literal = λ host. none;
  lookup = λ hop host port. some (public_addr ∷ []);
  send = λ hop url addr. some (answer hop);
}

download_image-guarded_example :
    (let (conns, result) =
        download_image bit_prefixes one_host two_hops download_config (codes "/a") in
      All (IsChecked bit_prefixes one_host two_hops download_config) conns
      × (length conns ≤ 1 + 1)
      × AllOk (λ body. length body ≤ 5) result)
download_image-guarded_example =
    download_image-guarded bit_prefixes one_host two_hops download_config (codes "/a")
