-- ===== src/Component/FakeIp/Tests.antt =====
-- The pool's theorems at a small range, over a small cache.
use redog.Common.{
  ℕ, ◌+◌, ◌-◌, ◌%◌, ◌↔◌, ◌⊎◌, ◌≤◌, ◌<◌, true, Text, codes, [], ◌∷◌, some, none, ◌≡◌, refl, arith,
  ==_iff, ◌==◌, text_eq, text_eq_iff, Bool-cases, inl, inr,
}
use redog.Common.Cache
use redog.Common.Cache.{InnerLru, LruLaws}
use redog.Component.FakeIp.{FakeIpPool, new_pool, allocate, lookup, reverse_lookup, contains}
use redog.Component.FakeIp.Allocate.{address_at}
use redog.Component.FakeIp.Cycle.{address_at_iff, Allocated, allocate-Allocated, new_pool-NewPool}
use redog.Component.FakeIp.History.{looks_up, looks_back, AllInRange, new_pool-AllInRange}
use redog.Component.FakeIp.Range.{IsPool}
use redog.Component.FakeIp.Fifo.{Fifo, fifo, fifo_laws, find}
use redog.Component.FakeIp.Lookup.{Serves, lookup_settles, lookup_takes_over, next_ip}
use redog.Core.Address.{v4}
use redog.Core.Error.{debug, release, done}

abbrev ips : InnerLru ℕ Text (Fifo ℕ Text)
ips = fifo ◌==◌ ==_iff

abbrev hosts : InnerLru Text ℕ (Fifo Text ℕ)
hosts = fifo text_eq text_eq_iff

ips_laws : LruLaws ips
ips_laws = fifo_laws ◌==◌ ==_iff

hosts_laws : LruLaws hosts
hosts_laws = fifo_laws text_eq text_eq_iff

-- 198.18.0.0/29, after the host "a.test" was given 198.18.0.2.
abbrev pool : FakeIpPool (Fifo ℕ Text) (Fifo Text ℕ)
pool = record {
  ip_to_host = record { size = 4; entries = (3323068418, codes "a.test") ∷ [] };
  host_to_ip = record { size = 4; entries = (codes "a.test", 3323068418) ∷ [] };
  network = 3323068416;
  mask = 4294967288;
  pool_size = 8;
  offset = 2;
}

pool-IsPool : IsPool 3 pool
pool-IsPool = record {
  w = 29;
  base = 415383552;
  width = refl;
  base_fits = omega arith;
  network_is = refl;
  mask_is = refl;
  size_is = refl;
  offset_fits = omega arith;
}

pool_stored :
    (h : Text) (ip : ℕ) → (hosts.get h pool.host_to_ip).1 ≡ some ip → contains pool (v4 ip) ≡ true
unfolding find contains
pool_stored h ip e = elim (Bool-cases (text_eq (codes "a.test") h)) [
  | inl same ↦
      let got : some 3323068418 ≡ some ip = rw same at e in
      let at : 3323068418 ≡ ip = ground arith in rw (← at) refl
  | inr other ↦ let got : none ≡ some ip = rw other at e in absurd (ground arith)
]

-- The same at the start of the next round: 198.18.0.2 comes next.
abbrev late_pool : FakeIpPool (Fifo ℕ Text) (Fifo Text ℕ)
late_pool = record pool { offset = 1 }

late_pool-IsPool : IsPool 3 late_pool
late_pool-IsPool = record {
  w = 29;
  base = 415383552;
  width = refl;
  base_fits = omega arith;
  network_is = refl;
  mask_is = refl;
  size_is = refl;
  offset_fits = omega arith;
}

-- A range of one address.
abbrev single_pool : FakeIpPool (Fifo ℕ Text) (Fifo Text ℕ)
single_pool = record pool { mask = 4294967295; pool_size = 1; offset = 0 }

single_pool-IsPool : IsPool 0 single_pool
single_pool-IsPool = record {
  w = 32;
  base = 3323068416;
  width = refl;
  base_fits = omega arith;
  network_is = refl;
  mask_is = refl;
  size_is = refl;
  offset_fits = omega arith;
}

pool-Serves : Serves ips hosts 3 pool
pool-Serves = record {
  pool = pool-IsPool;
  host_bits = omega arith;
  ips_room = omega arith;
  hosts_room = omega arith;
  stored = pool_stored;
}

late_pool-Serves : Serves ips hosts 3 late_pool
late_pool-Serves = record {
  pool = late_pool-IsPool;
  host_bits = omega arith;
  ips_room = omega arith;
  hosts_room = omega arith;
  stored = unfold contains in pool_stored;
}

new_pool-AllInRange_example :
    (p : FakeIpPool (Fifo ℕ Text) (Fifo Text ℕ)) × (new_pool ips hosts debug 3323068419 29 0
      ≡ done p)
    × AllInRange ips hosts debug
        (looks_up (codes "a.test") ∷ looks_back 3323068418 ∷ looks_up (codes "b.test") ∷ [])
        p
new_pool-AllInRange_example =
    new_pool-AllInRange debug ips_laws hosts_laws 3323068419 29 0
      (looks_up (codes "a.test") ∷ looks_back 3323068418 ∷ looks_up (codes "b.test") ∷ [])
      (omega arith) (omega arith) (omega arith)

-- The pool after a lookup of "b.test".
abbrev asked_pool : FakeIpPool (Fifo ℕ Text) (Fifo Text ℕ)
asked_pool = record {
  ip_to_host = record {
    size = 4;
    entries = (3323068419, codes "b.test") ∷ (3323068418, codes "a.test") ∷ [];
  };
  host_to_ip = record {
    size = 4;
    entries = (codes "b.test", 3323068419) ∷ (codes "a.test", 3323068418) ∷ [];
  };
  network = 3323068416;
  mask = 4294967288;
  pool_size = 8;
  offset = 3;
}

asked : lookup ips hosts debug (codes "b.test") pool ≡ done (asked_pool, 3323068419)
unfolding lookup find Cache.get Cache.put text_eq
asked = refl

not_yet : (hosts.get (codes "b.test") pool.host_to_ip).1 ≡ none
unfolding find text_eq
not_yet = refl

lookup_settles_example :
    ((r : FakeIpPool (Fifo ℕ Text) (Fifo Text ℕ)) × (lookup ips hosts debug
          (codes "b.test")
          asked_pool
        ≡ done (r, 3323068419)))
    × (((hosts.get (codes "b.test") pool.host_to_ip).1 ≡ some 3323068419)
        ⊎ ((reverse_lookup ips hosts debug 3323068419 asked_pool).1 ≡ some (codes "b.test")))
lookup_settles_example =
    lookup_settles debug ips_laws hosts_laws 3 (codes "b.test") pool pool-Serves asked

held : (hosts.get (codes "a.test") late_pool.host_to_ip).1 ≡ some (next_ip late_pool)
unfolding find text_eq
held = refl

lookup_takes_over_example :
    (q r : FakeIpPool (Fifo ℕ Text) (Fifo Text ℕ)) × (lookup ips hosts debug
        (codes "b.test")
        late_pool
      ≡ done (q, next_ip late_pool))
    × (lookup ips hosts debug (codes "a.test") q ≡ done (r, next_ip late_pool))
    × ((reverse_lookup ips hosts debug (next_ip late_pool) r).1 ≡ some (codes "b.test"))
lookup_takes_over_example =
    lookup_takes_over debug ips_laws hosts_laws 3 (codes "a.test") (codes "b.test") late_pool
      late_pool-Serves (λ e. ground arith) held not_yet (omega arith)

address_at_iff_example :
    (address_at ips hosts debug 1 pool ≡ address_at ips hosts debug 13 pool) ↔ (1 % 6 ≡ 13 % 6)
address_at_iff_example = address_at_iff ips hosts debug 1 13 pool 3 pool-IsPool (omega arith)

allocate-Allocated_example :
    (q : FakeIpPool (Fifo ℕ Text) (Fifo Text ℕ)) × (ip : ℕ) × (allocate ips hosts release
        single_pool
      ≡ done (q, ip))
    × Allocated ips hosts release 0 single_pool q ip
allocate-Allocated_example =
    allocate-Allocated ips hosts release single_pool 0 single_pool-IsPool (omega arith)

new_pool-NewPool_example :
    (p : FakeIpPool (Fifo ℕ Text) (Fifo Text ℕ)) × (new_pool ips hosts debug 3323068419 29 0
      ≡ done p)
    × IsPool (32 - 29) p
    × (p.network ≤ 3323068419)
    × (3323068419 < p.network + p.pool_size)
    × (p.ip_to_host ≡ Cache.new ips 0)
    × (p.host_to_ip ≡ Cache.new hosts 0)
new_pool-NewPool_example =
    new_pool-NewPool ips hosts debug 3323068419 29 0 (omega arith) (omega arith)
