-- ===== src/SourceGuard.antt =====
-- src/services/image/source_guard.rs: which addresses a download may connect to. The parser of
-- `IpAddr`, the DNS lookup and the packages ipnet and url are parameters.
pub mod Literals
pub mod Safety
pub mod Numerals
pub mod Spellings
pub mod Allowlist
pub mod AllowlistLaws
use image_resizer.Prelude.{
  Bool, List, Option, Result, [], err, false, guard, if◌then◌else◌, leb, none, not, ok, some, ℕ,
  ◌%◌, ◌&&◌, ◌*◌, ◌+◌, ◌-◌, ◌/◌, ◌==◌, ◌>>=◌, ◌>>◌, ◌^◌, ◌||◌, ◌∷◌,
}
use image_resizer.Text.{Str}

-- An address as its 32-bit or 128-bit number.
pub data IpAddr : Type 0 where
  v4 v6 : ℕ → IpAddr

pub data SourceRejected : Type 0 where
  unsupported_scheme not_allowlisted no_addresses_resolved dns_failed : Str → SourceRejected
  blocked_ip_literal blocked_resolved_address : Str → IpAddr → SourceRejected

-- `contains` of the package ipnet, for a network's number and prefix length.
pub record IpNet : Type 0 where
  pub contains_v4 : ℕ → ℕ → ℕ → Bool
  pub contains_v6 : ℕ → ℕ → ℕ → Bool

-- The three overrides.
pub record Policy : Type 0 where
  pub allow_loopback : Bool
  pub allow_link_local : Bool
  pub allow_private : Bool

abbrev pub strict : Policy
strict = record { allow_loopback = false; allow_link_local = false; allow_private = false }

-- The octets of an IPv4 address, and its number.
abbrev pub octets : ℕ → ℕ → ℕ → ℕ → ℕ
octets a b c d = a * 2 ^ 24 + b * 2 ^ 16 + c * 2 ^ 8 + d

abbrev pub first_octet : ℕ → ℕ
first_octet ip = ip / 2 ^ 24

abbrev pub second_octet : ℕ → ℕ
second_octet ip = ip / 2 ^ 16 % 256

-- The predicates of `std::net::Ipv4Addr`.
abbrev pub is_loopback_v4 : ℕ → Bool
is_loopback_v4 ip = first_octet ip == 127

abbrev pub is_link_local_v4 : ℕ → Bool
is_link_local_v4 ip = first_octet ip == 169 && second_octet ip == 254

abbrev pub is_private_v4 : ℕ → Bool
is_private_v4 ip =
    first_octet ip == 10
    || first_octet ip == 172 && leb 16 (second_octet ip) && leb (second_octet ip) 31
    || first_octet ip == 192 && second_octet ip == 168

-- `to_ipv4_mapped`: `::ffff:a.b.c.d`.
abbrev pub mapped_prefix : ℕ
mapped_prefix = 0xffff * 2 ^ 32

unfoldable pub to_ipv4_mapped : ℕ → Option ℕ
to_ipv4_mapped ip = if ip / 2 ^ 32 == 0xffff then some (ip % 2 ^ 32) else none

module _ (net : IpNet) where
  open net use {contains_v4, contains_v6}

  unfoldable pub is_blocked_ipv4 : ℕ → Policy → Bool
  is_blocked_ipv4 ip p =
      not p.allow_loopback && is_loopback_v4 ip
      || not p.allow_link_local && is_link_local_v4 ip
      || not p.allow_private && is_private_v4 ip
      || ip == 0
      || ip == 2 ^ 32 - 1
      || not p.allow_private && contains_v4 (octets 100 64 0 0) 10 ip

  unfoldable pub is_blocked_ipv6 : ℕ → Policy → Bool
  unfolding to_ipv4_mapped is_blocked_ipv4
  is_blocked_ipv6 ip p = elim (to_ipv4_mapped ip) [
    | some mapped ↦ is_blocked_ipv4 mapped p
    | none ↦
        not p.allow_loopback && ip == 1
        || ip == 0
        || not p.allow_link_local && contains_v6 (0xfe80 * 2 ^ 112) 10 ip
        || not p.allow_private && contains_v6 (0xfc00 * 2 ^ 112) 7 ip
  ]

  unfoldable pub is_blocked_ip_with_policy : IpAddr → Policy → Bool
  unfolding is_blocked_ipv4 is_blocked_ipv6
  is_blocked_ip_with_policy (v4 ip) p = is_blocked_ipv4 ip p
  is_blocked_ip_with_policy (v6 ip) p = is_blocked_ipv6 ip p

  abbrev pub is_blocked_ip : IpAddr → Bool
  is_blocked_ip ip = is_blocked_ip_with_policy ip strict

  abbrev pub SocketAddr : Type 0
  SocketAddr = IpAddr × ℕ

  -- The loop over the resolved addresses.
  unfoldable pub check_resolved : Str → Policy → List SocketAddr → Result SourceRejected (Unit {0})
  unfolding is_blocked_ip_with_policy
  check_resolved host p [] = ok tt
  check_resolved host p ((ip, port) ∷ addrs) = do
    guard (not (is_blocked_ip_with_policy ip p)) (blocked_resolved_address host ip)
    check_resolved host p addrs

  abbrev resolved : Str → Policy → List SocketAddr → Result SourceRejected SocketAddr
  resolved host p [] = err (no_addresses_resolved host)
  resolved host p (addr ∷ addrs) = check_resolved host p (addr ∷ addrs) >> ok addr

  -- `resolve_validated_addr`, for the literal that the host is, if it is one, and for what the DNS
  -- lookup gives, which is absent if it fails.
  unfoldable pub resolve_validated_addr :
      Option IpAddr → Option (List SocketAddr) → Str → ℕ → Policy → Result SourceRejected SocketAddr
  unfolding is_blocked_ip_with_policy check_resolved
  resolve_validated_addr (some ip) lookup host port p = do
    guard (not (is_blocked_ip_with_policy ip p)) (blocked_ip_literal host ip)
    ok (ip, port)
  resolve_validated_addr none none host port p = err (dns_failed host)
  resolve_validated_addr none (some addrs) host port p = resolved host p addrs
