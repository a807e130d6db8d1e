-- ===== src/Dns/Choice.antt =====
-- Which of the addresses that the system finds the resolver gives, and how it leads a virtual
-- address back to its host.
use redog.Common.{
  ℕ, Bool, true, false, Bool-cases, Text, codes, List, [], ◌∷◌, ◌++◌, none, some, Option-cases,
  Parsed, parsed, All, inl, inr, ◌⊎◌, ◌≡◌, refl, ap, arith,
}
use redog.Common.Cache.{InnerLru, LruLaws}
use redog.Component.FakeIp.{FakeIpPool, lookup}
use redog.Component.FakeIp.Lookup.{Serves, lookup-Serves, reverse_lookup-lookup}
use redog.Core.Address.{IpAddr, v4, SocketAddr}
use redog.Core.Error.{dns_resolution, Result, ok, err, Build, done}
use redog.Dns.Resolver.{is_ipv4, find_ip, resolve_v4, fake_ip_lookup, is_fake_ip}

-- The first address with a property is the answer.
abbrev pub FirstWith : (SocketAddr → Bool) → List SocketAddr → IpAddr → Type 0
FirstWith test addrs ip =
    (before after : List SocketAddr) × (a : SocketAddr) × (addrs ≡ before ++ (a ∷ after))
    × All (λ x. test x ≡ false) before
    × (test a ≡ true)
    × (a.ip ≡ ip)

find_ip-some :
    (test : SocketAddr → Bool) (addrs : List SocketAddr) {ip : IpAddr}
    → find_ip test addrs ≡ some ip
    → FirstWith test addrs ip
unfolding find_ip
find_ip-some test [] h = absurd (ground arith)
find_ip-some test (a ∷ others) {ip} h = elim (Bool-cases (test a)) [
  | inl e ↦ ([], others, a, refl, tt, e, ground (arith))
  | inr e ↦
      let (before, after, b, q, missed, hit, is) = find_ip-some test others {ip = ip} (rw e at h) in
      (a ∷ before, after, b, ap (◌∷◌ a) q, (e, missed), hit, is)
]

find_ip-none :
    (test : SocketAddr → Bool) (addrs : List SocketAddr)
    → find_ip test addrs ≡ none
    → All (λ x. test x ≡ false) addrs
unfolding find_ip
find_ip-none test [] h = tt
find_ip-none test (a ∷ others) h = elim (Bool-cases (test a)) [
  | inl e ↦ absurd (ground arith)
  | inr e ↦ (e, find_ip-none test others (rw e at h))
]

-- What is resolved of the addresses found: the first of IPv4, or the first of all, or nothing.
abbrev pub Prefers : Text → List SocketAddr → Result IpAddr → Type 0
Prefers host addrs r =
    ((ip : IpAddr) × FirstWith is_ipv4 addrs ip × (r ≡ ok ip))
    ⊎ ((a : SocketAddr) × (rest : List SocketAddr) × (addrs ≡ a ∷ rest)
        × All (λ x. is_ipv4 x ≡ false) addrs
        × (r ≡ ok a.ip))
    ⊎ ((addrs ≡ []) × (r ≡ err (dns_resolution (codes "no addresses for " ++ host))))

module _ (lookup_host : Text → Parsed (List SocketAddr)) where
  -- Where the system finds addresses, an IPv4 address is preferred, and the first of the others
  -- taken if there is none.
  pub resolve_v4_lem :
      (host : Text) (addrs : List SocketAddr)
      → lookup_host (host ++ codes ":0") ≡ parsed addrs
      → Prefers host addrs (resolve_v4 lookup_host host)
  unfolding resolve_v4
  resolve_v4_lem host [] e = rw (e, resolve_v4) (inr (inr (refl, refl)))
  resolve_v4_lem host (a ∷ rest) e = elim (Option-cases (find_ip is_ipv4 (a ∷ rest))) [
    | inr (ip, f) ↦
        rw (e, resolve_v4) (rw (f, resolve_v4) (inl (ip, find_ip-some is_ipv4 (a ∷ rest) f, refl)))
    | inl f ↦
        rw (e, resolve_v4)
          (rw (f, resolve_v4) (inr (inl (a, rest, refl, find_ip-none is_ipv4 (a ∷ rest) f, refl))))
  ]

module _ {C D : Type 0} {ips : InnerLru ℕ Text C} {hosts : InnerLru Text ℕ D} (b : Build)
    (ips_laws : LruLaws ips) (hosts_laws : LruLaws hosts) where
  -- Over caches that keep their documented laws, with a pool that serves: the address that a new
  -- host has just been given is a virtual one, and leads back to the host.
  pub fake_ip_lookup-lookup :
      (k : ℕ) (host : Text) (p : FakeIpPool C D)
      → Serves ips hosts k p
      → (hosts.get host p.host_to_ip).1 ≡ none
      → (q : FakeIpPool C D) × (ip : ℕ) × (lookup ips hosts b host p ≡ done (q, ip))
        × (is_fake_ip (v4 ip) (some q) ≡ true)
        × ((fake_ip_lookup ips hosts b (v4 ip) (some q)).1 ≡ some host)
  unfolding is_fake_ip fake_ip_lookup
  fake_ip_lookup-lookup k host p s fresh =
      let (q, ip, e, inside, serves) = lookup-Serves b ips_laws hosts_laws k host p s in
      (q, ip, e, inside, reverse_lookup-lookup b ips_laws hosts_laws k host p s fresh e)
