-- ===== src/Component/FakeIp/History.antt =====
-- A pool from its making on, under any calls of `lookup` and `reverse_lookup`.
use redog.Common.{ℕ, ◌-◌, ◌≤◌, ◌<◌, true, Text, List, [], ◌∷◌, ◌≡◌, refl}
use redog.Common.Cache
use redog.Common.Cache.{InnerLru, LruLaws}
use redog.Component.FakeIp.{FakeIpPool, new_pool, lookup, reverse_lookup, contains}
use redog.Component.FakeIp.Lookup.{Serves, new_pool-Serves, lookup-Serves}
use redog.Component.FakeIp.Range.{IsPool-same}
use redog.Core.Address.{v4}
use redog.Core.Error.{Build, done}

pub data Call : Type 0 where
  looks_up : Text → Call
  looks_back : ℕ → Call

module _ {C D : Type 0} (ips : InnerLru ℕ Text C) (hosts : InnerLru Text ℕ D) (b : Build) where
  -- Every lookup among the calls returns, with an address of the range.
  abbrev pub AllInRange : List Call → FakeIpPool C D → Type 0
  AllInRange [] p = Unit {0}
  AllInRange (looks_up host ∷ cs) p =
      (q : FakeIpPool C D) × (ip : ℕ) × (lookup ips hosts b host p ≡ done (q, ip))
      × (contains q (v4 ip) ≡ true)
      × AllInRange cs q
  AllInRange (looks_back ip ∷ cs) p = AllInRange cs (reverse_lookup ips hosts b ip p).0

module _ {C D : Type 0} {ips : InnerLru ℕ Text C} {hosts : InnerLru Text ℕ D} (b : Build)
    (ips_laws : LruLaws ips) (hosts_laws : LruLaws hosts) where
  reverse_lookup-Serves :
      (k ip : ℕ) (p : FakeIpPool C D)
      → Serves ips hosts k p
      → Serves ips hosts k (reverse_lookup ips hosts b ip p).0
  unfolding reverse_lookup contains Cache.get
  reverse_lookup-Serves k ip p s = record {
    pool = IsPool-same k p _ s.pool refl refl refl refl;
    host_bits = s.host_bits;
    ips_room = rw (ips_laws.cap-get ip p.ip_to_host) s.ips_room;
    hosts_room = s.hosts_room;
    stored = s.stored;
  }

  Serves-AllInRange :
      (k : ℕ) (cs : List Call) (p : FakeIpPool C D)
      → Serves ips hosts k p
      → AllInRange ips hosts b cs p
  Serves-AllInRange k [] p s = tt
  Serves-AllInRange k (looks_up host ∷ cs) p s =
      let (q, ip, e, inside, served) = lookup-Serves b ips_laws hosts_laws k host p s in
      (q, ip, e, inside, Serves-AllInRange k cs q served)
  Serves-AllInRange k (looks_back ip ∷ cs) p s =
      Serves-AllInRange k cs _ (reverse_lookup-Serves k ip p s)

  -- Over caches that keep their documented laws: for an address and a prefix of 1 to 31 bits and any
  -- capacity, in either build, `new_pool` returns a pool, and under any calls on it every `lookup`
  -- returns, with an address of the range.
  pub new_pool-AllInRange :
      (network prefix_len capacity : ℕ) (cs : List Call)
      → network < 4294967296
      → 1 ≤ prefix_len
      → prefix_len ≤ 31
      → (p : FakeIpPool C D) × (new_pool ips hosts b network prefix_len capacity ≡ done p)
        × AllInRange ips hosts b cs p
  new_pool-AllInRange network prefix_len capacity cs fits lo hi =
      let (p, e, s) =
        new_pool-Serves b ips_laws hosts_laws network prefix_len capacity fits lo hi in
      (p, e, Serves-AllInRange (32 - prefix_len) cs p s)
