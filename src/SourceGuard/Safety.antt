-- ===== src/SourceGuard/Safety.antt =====
-- Lemmas on the address classes and the resolution of source_guard.rs.
use image_resizer.Prelude.{
  >>=-eq-ok, All, List, Option, [], ap, arith, false, inl, inr, none, ok, some, subst, true, ℕ, ◌+◌,
  ◌-◌, ◌/◌, ◌<◌, ◌==◌, ◌^◌, ◌↔◌, ◌∷◌, ◌≡◌, ◌≤◌, ◌⊎◌,
}
use image_resizer.Text.{Str}
use image_resizer.SourceGuard.{
  IpAddr, IpNet, Policy, SocketAddr, check_resolved, is_blocked_ip, is_blocked_ip_with_policy,
  mapped_prefix, octets, resolve_validated_addr, to_ipv4_mapped, v4, v6,
}

-- What the package ipnet documents: an address is in a network if the leading bits agree.
pub record IpNetLaws (net : IpNet) : Type 0 where
  pub contains_v4_lem :
      (n len ip : ℕ) → net.contains_v4 n len ip ≡ (ip / 2 ^ (32 - len) == n / 2 ^ (32 - len))

-- The reserved ranges of IPv4 that the guard names, as intervals: 0.0.0.0, 10.0.0.0/8, 100.64.0.0/10,
-- 127.0.0.0/8, 169.254.0.0/16, 172.16.0.0/12, 192.168.0.0/16 and 255.255.255.255.
abbrev pub IsReserved : ℕ → Type 0
IsReserved ip =
    (ip ≡ 0)
    ⊎ ((octets 10 0 0 0 ≤ ip) × (ip ≤ octets 10 255 255 255))
    ⊎ ((octets 100 64 0 0 ≤ ip) × (ip ≤ octets 100 127 255 255))
    ⊎ ((octets 127 0 0 0 ≤ ip) × (ip ≤ octets 127 255 255 255))
    ⊎ ((octets 169 254 0 0 ≤ ip) × (ip ≤ octets 169 254 255 255))
    ⊎ ((octets 172 16 0 0 ≤ ip) × (ip ≤ octets 172 31 255 255))
    ⊎ ((octets 192 168 0 0 ≤ ip) × (ip ≤ octets 192 168 255 255))
    ⊎ (ip ≡ octets 255 255 255 255)

module _ (net : IpNet) (laws : IpNetLaws net) where
  -- Without overrides an IPv4 address is blocked exactly when it lies in one of the reserved ranges.
  pub is_blocked_ip-v4_iff :
      (ip : ℕ) → ip < 2 ^ 32 → (is_blocked_ip net (v4 ip) ≡ true) ↔ IsReserved ip
  unfolding is_blocked_ip_with_policy
  is_blocked_ip-v4_iff ip small = ground (arith, laws.contains_v4_lem (octets 100 64 0 0) 10 ip)

module _ (net : IpNet) where
  -- Link-local addresses, the cloud metadata endpoint among them, stay blocked for a host that the
  -- operator's list allows.
  pub link_local_blocked :
      (ip : ℕ) (p : Policy)
      → octets 169 254 0 0 ≤ ip
      → ip ≤ octets 169 254 255 255
      → p.allow_link_local ≡ false
      → is_blocked_ip_with_policy net (v4 ip) p ≡ true
  unfolding is_blocked_ip_with_policy
  link_local_blocked ip p low high off = ground arith

  -- An IPv4 address written as a mapped IPv6 address is judged as the IPv4 address, whatever the
  -- policy.
  pub is_blocked-mapped :
      (ip : ℕ) (p : Policy)
      → ip < 2 ^ 32
      → is_blocked_ip_with_policy net (v6 (mapped_prefix + ip)) p
        ≡ is_blocked_ip_with_policy net (v4 ip) p
  unfolding is_blocked_ip_with_policy
  is_blocked-mapped ip p small =
      let unwrapped : to_ipv4_mapped (mapped_prefix + ip) ≡ some ip =
        unfold to_ipv4_mapped in ground arith in
      cc unwrapped

  check_resolved-safe :
      (host : Str) (p : Policy) (addrs : List (SocketAddr net))
      → check_resolved net host p addrs ≡ ok tt
      → All (λ a. is_blocked_ip_with_policy net a.0 p ≡ false) addrs
  unfolding check_resolved
  check_resolved-safe host p [] e = tt
  check_resolved-safe host p ((ip, port) ∷ addrs) e =
      ground (arith, check_resolved-safe host p addrs)

  -- The address that is returned is not blocked under the policy, whether the host was a literal or a
  -- name, and it is the literal with the port, or the first address of the lookup.
  pub resolve_validated_addr-safe :
      (literal : Option IpAddr) (lookup : Option (List (SocketAddr net))) (host : Str) (port : ℕ)
      (p : Policy) (addr : SocketAddr net)
      → resolve_validated_addr net literal lookup host port p ≡ ok addr
      → (is_blocked_ip_with_policy net addr.0 p ≡ false)
        × ((literal ≡ some addr.0)
            ⊎ ((rest : List (SocketAddr net)) × (lookup ≡ some (addr ∷ rest))))
  unfolding resolve_validated_addr
  resolve_validated_addr-safe (some ip) lookup host port p addr e =
      let open_ip : is_blocked_ip_with_policy net ip p ≡ false = ground arith in
      let same : ip ≡ addr.0 = ground arith in (ground arith, inl (ap some same))
  resolve_validated_addr-safe none none host port p addr e = absurd (ground arith)
  resolve_validated_addr-safe none (some []) host port p addr e = absurd (ground arith)
  resolve_validated_addr-safe none (some (first ∷ rest)) host port p addr e =
      let (u, checked, same) =
        >>=-eq-ok (check_resolved net host p (first ∷ rest)) (λ _. ok first) e in
      let all_safe = check_resolved-safe host p (first ∷ rest) checked in
      let first_is : first ≡ addr = ground arith in
      (
        subst (λ a. is_blocked_ip_with_policy net a.0 p ≡ false) first_is all_safe.0,
        inr (rest, ap (λ a. some (a ∷ rest)) first_is),
      )
