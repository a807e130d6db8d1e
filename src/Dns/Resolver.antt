-- ===== src/Dns/Resolver.antt =====
-- redog-dns/src/resolver.rs: `SystemResolver`, and the trait `DnsResolver` of redog-core/src/dns.rs
-- that it implements. The system's own resolution, tokio's `lookup_host`, is a parameter.
use redog.Common.{
  ℕ, Bool, true, false, Text, codes, List, [], ◌∷◌, ◌++◌, Option, none, some, if◌then◌else◌, Parsed,
  parsed, failed,
}
use redog.Common.Cache.{InnerLru}
use redog.Component.FakeIp.{FakeIpPool, reverse_lookup, contains}
use redog.Core.Address.{IpAddr, v4, v6, SocketAddr}
use redog.Core.Error.{Error, dns_resolution, Result, ok, err, Build}

abbrev pub is_ipv4 : SocketAddr → Bool
is_ipv4 a = elim a.ip [ v4 _ ↦ true | v6 _ ↦ false ]

abbrev pub is_ipv6 : SocketAddr → Bool
is_ipv6 a = elim a.ip [ v4 _ ↦ false | v6 _ ↦ true ]

-- `iter().find(..).map(|a| a.ip())`
unfoldable pub find_ip : (SocketAddr → Bool) → List SocketAddr → Option IpAddr
find_ip test [] = none
find_ip test (a ∷ others) = let rest = find_ip test others in if test a then some a.ip else rest

abbrev pub first_ip : List SocketAddr → Option IpAddr
first_ip [] = none
first_ip (a ∷ _) = some a.ip

abbrev or_first : Option IpAddr → Option IpAddr → Option IpAddr
or_first none b = b
or_first (some a) b = some a

abbrev or_error : Error → Option IpAddr → Result IpAddr
or_error e none = err e
or_error e (some ip) = ok ip

-- An error of the lookup, with the host.
abbrev not_resolved : Text → Text → Error
not_resolved host e = dns_resolution (host ++ (codes ": " ++ e))

module _ (lookup_host : Text → Parsed (List SocketAddr)) where
  abbrev choose_v4 : Text → Parsed (List SocketAddr) → Result IpAddr
  unfolding find_ip
  choose_v4 host (failed e) = err (not_resolved host e)
  choose_v4 host (parsed addrs) =
      or_error (dns_resolution (codes "no addresses for " ++ host))
        (or_first (find_ip is_ipv4 addrs) (first_ip addrs))

  unfoldable pub resolve_v4 : Text → Result IpAddr
  unfolding choose_v4
  resolve_v4 host = choose_v4 host (lookup_host (host ++ codes ":0"))

  abbrev choose_v6 : Text → Parsed (List SocketAddr) → Result IpAddr
  unfolding find_ip
  choose_v6 host (failed e) = err (not_resolved host e)
  choose_v6 host (parsed addrs) =
      or_error (dns_resolution (codes "no IPv6 addresses for " ++ host)) (find_ip is_ipv6 addrs)

  unfoldable pub resolve_v6 : Text → Result IpAddr
  unfolding choose_v6
  resolve_v6 host = choose_v6 host (lookup_host (host ++ codes ":0"))

  -- The trait's default.
  unfoldable pub resolve : Text → Result IpAddr
  unfolding resolve_v4
  resolve host = resolve_v4 host

module _ {C D : Type 0} (ips : InnerLru ℕ Text C) (hosts : InnerLru Text ℕ D) (b : Build) where
  -- The pool after the call, and the host.
  unfoldable pub fake_ip_lookup :
      IpAddr → Option (FakeIpPool C D) → Option (FakeIpPool C D) × Option Text
  unfolding reverse_lookup
  fake_ip_lookup ip none = (none, none)
  fake_ip_lookup (v6 n) (some pool) = (some pool, none)
  fake_ip_lookup (v4 n) (some pool) =
      let (after, host) = reverse_lookup ips hosts b n pool in (some after, host)

unfoldable pub is_fake_ip : {C D : Type 0} → IpAddr → Option (FakeIpPool C D) → Bool
unfolding contains
is_fake_ip ip none = false
is_fake_ip ip (some pool) = contains pool ip

unfoldable pub is_fake_ip_enabled : {C D : Type 0} → Option (FakeIpPool C D) → Bool
is_fake_ip_enabled none = false
is_fake_ip_enabled (some _) = true
