-- ===== src/Component/FakeIp/Lookup.antt =====
-- What `lookup` and `reverse_lookup` return, over caches that keep the documented laws.
use redog.Common.{
  ℕ, ◌+◌, ◌-◌, ◌%◌, ◌≤◌, ◌<◌, true, Text, none, some, ◌≡◌, ◌≢◌, refl, ap, sym, ◌∙◌, arith, ◌⊎◌, inl,
  inr, text_eq, text_eq_iff, Bool-cases, Option-cases,
}
use redog.Common.Cache
use redog.Common.Cache.{InnerLru, LruLaws}
use redog.Component.FakeIp.{FakeIpPool, usable, new_pool, lookup, reverse_lookup, contains}
use redog.Component.FakeIp.Allocate.{
  allocate_lem, allocated-contains, after_allocate-IsPool, new_pool-IsPool,
}
use redog.Component.FakeIp.Range.{IsPool, IsPool-same}
use redog.Core.Address.{v4}
use redog.Core.Error.{Build, done, done-injective}

-- The address that the next new host is given.
abbrev pub next_ip : {C D : Type 0} → FakeIpPool C D → ℕ
next_ip p = p.network + p.offset % usable p + 1

module _ {C D : Type 0} (ips : InnerLru ℕ Text C) (hosts : InnerLru Text ℕ D) where
  -- A pool over a range with host bits, whose caches have room and whose stored addresses all lie
  -- in the range.
  pub record Serves (k : ℕ) (p : FakeIpPool C D) : Type 0 where
    pub pool : IsPool k p
    pub host_bits : 1 ≤ k
    pub ips_room : 0 < ips.cap p.ip_to_host
    pub hosts_room : 0 < hosts.cap p.host_to_ip
    pub stored :
        (h : Text) (ip : ℕ) → (hosts.get h p.host_to_ip).1 ≡ some ip → contains p (v4 ip) ≡ true

module _ {C D : Type 0} {ips : InnerLru ℕ Text C} {hosts : InnerLru Text ℕ D} (b : Build)
    (ips_laws : LruLaws ips) (hosts_laws : LruLaws hosts) where
  -- A new pool serves, for a prefix of 1 to 31 bits and any capacity, in either build.
  pub new_pool-Serves :
      (network prefix_len capacity : ℕ)
      → network < 4294967296
      → 1 ≤ prefix_len
      → prefix_len ≤ 31
      → (p : FakeIpPool C D) × (new_pool ips hosts b network prefix_len capacity ≡ done p)
        × Serves ips hosts (32 - prefix_len) p
  new_pool-Serves network prefix_len capacity fits lo hi =
      let (p, e, i, _, _, ips_new, hosts_new) =
        new_pool-IsPool ips hosts b network prefix_len capacity fits lo (omega arith) in
      (
        p,
        e,
        record {
          pool = i;
          host_bits = omega arith;
          ips_room = rw ips_new (Cache.cap-new_pos ips ips_laws capacity);
          hosts_room = rw hosts_new (Cache.cap-new_pos hosts hosts_laws capacity);
          stored = λ h ip known.
              let empty : (hosts.get h p.host_to_ip).1 ≡ none =
                rw hosts_new (Cache.get-new hosts hosts_laws h capacity) in
              absurd (ground arith);
        },
      )

  -- The pool after the read of the cache of hosts.
  abbrev read_host : Text → FakeIpPool C D → FakeIpPool C D
  read_host host p = record p { host_to_ip = (hosts.get host p.host_to_ip).0 }

  -- The pool after a new host was given the address `ip`.
  abbrev store_host : Text → ℕ → FakeIpPool C D → FakeIpPool C D
  store_host host ip p = record p {
    ip_to_host = ips.put ip host p.ip_to_host;
    host_to_ip = hosts.put host ip (hosts.get host p.host_to_ip).0;
    offset = (p.offset + 1) % usable p;
  }

  lookup_hit :
      (host : Text) (p : FakeIpPool C D) (ip : ℕ)
      → (hosts.get host p.host_to_ip).1 ≡ some ip
      → lookup ips hosts b host p ≡ done (read_host host p, ip)
  unfolding lookup Cache.get
  lookup_hit host p ip e = rw (e, lookup)

  read_host-Serves :
      (k : ℕ) (host : Text) (p : FakeIpPool C D)
      → Serves ips hosts k p
      → Serves ips hosts k (read_host host p)
  unfolding contains
  read_host-Serves k host p s = record {
    pool = IsPool-same k p (read_host host p) s.pool refl refl refl refl;
    host_bits = s.host_bits;
    ips_room = s.ips_room;
    hosts_room = rw (hosts_laws.cap-get host p.host_to_ip) s.hosts_room;
    stored = λ h ip e. s.stored h ip (sym (hosts_laws.get-get h host p.host_to_ip) ∙ e);
  }

  lookup_miss :
      (k : ℕ) (host : Text) (p : FakeIpPool C D)
      → Serves ips hosts k p
      → (hosts.get host p.host_to_ip).1 ≡ none
      → lookup ips hosts b host p ≡ done (store_host host (next_ip p) p, next_ip p)
  unfolding lookup Cache.get Cache.put
  lookup_miss k host p s e =
      let r = read_host-Serves k host p s in
      rw (e, lookup) (rw (allocate_lem ips hosts b (read_host host p) k r.pool r.host_bits))

  -- What the cache of hosts holds after a new host was stored.
  stored_after :
      (k : ℕ) (host h : Text) (p : FakeIpPool C D) {ip : ℕ}
      → Serves ips hosts k p
      → (hosts.get h (store_host host (next_ip p) p).host_to_ip).1 ≡ some ip
      → contains p (v4 ip) ≡ true
  stored_after k host h p {ip} s e =
      let c = (hosts.get host p.host_to_ip).0 in
      elim (Bool-cases (text_eq h host)) [
        | inl same ↦
            let own =
              hosts_laws.get-put_self host (next_ip p) c
                (rw (hosts_laws.cap-get host p.host_to_ip) s.hosts_room) in
            let got : some (next_ip p) ≡ some ip =
              sym own ∙ (rw ((text_eq_iff h host).0 same) at e) in
            let at_next : next_ip p ≡ ip = ground arith in
            rw (← at_next) (allocated-contains ips hosts b p k s.pool s.host_bits)
        | inr other ↦
            elim (hosts_laws.get-put_ne h host (next_ip p) c
              (λ q. ground (arith, text_eq_iff h host))) [
                | inl kept ↦
                    s.stored h ip (sym (hosts_laws.get-get h host p.host_to_ip) ∙ sym kept ∙ e)
                | inr gone ↦ absurd (ground arith)
              ]
      ]

  store_host-Serves :
      (k : ℕ) (host : Text) (p : FakeIpPool C D)
      → Serves ips hosts k p
      → Serves ips hosts k (store_host host (next_ip p) p)
  unfolding contains
  store_host-Serves k host p s = record {
    pool =
        IsPool-same k (record p { offset = (p.offset + 1) % usable p }) _
          (after_allocate-IsPool ips hosts b p k s.pool s.host_bits) refl refl refl refl;
    host_bits = s.host_bits;
    ips_room = rw (ips_laws.cap-put (next_ip p) host p.ip_to_host) s.ips_room;
    hosts_room =
        rw (hosts_laws.cap-put host (next_ip p) (hosts.get host p.host_to_ip).0)
          (rw (hosts_laws.cap-get host p.host_to_ip) s.hosts_room);
    stored = λ h ip e. stored_after k host h p s e;
  }

  -- On every pool that serves, `lookup` returns; its address lies in the range, and the pool still
  -- serves.
  pub lookup-Serves :
      (k : ℕ) (host : Text) (p : FakeIpPool C D)
      → Serves ips hosts k p
      → (q : FakeIpPool C D) × (ip : ℕ) × (lookup ips hosts b host p ≡ done (q, ip))
        × (contains q (v4 ip) ≡ true)
        × Serves ips hosts k q
  unfolding contains
  lookup-Serves k host p s = elim (Option-cases (hosts.get host p.host_to_ip).1) [
    | inl fresh ↦ (
      store_host host (next_ip p) p,
      next_ip p,
      lookup_miss k host p s fresh,
      allocated-contains ips hosts b p k s.pool s.host_bits,
      store_host-Serves k host p s,
    )
    | inr (ip, known) ↦ (
      read_host host p,
      ip,
      lookup_hit host p ip known,
      s.stored host ip known,
      read_host-Serves k host p s,
    )
  ]

  known_after :
      (k : ℕ) (host : Text) (p : FakeIpPool C D) {q : FakeIpPool C D} {ip : ℕ}
      → Serves ips hosts k p
      → lookup ips hosts b host p ≡ done (q, ip)
      → (hosts.get host q.host_to_ip).1 ≡ some ip
  known_after k host p {q} {ip} s e = elim (Option-cases (hosts.get host p.host_to_ip).1) [
    | inl fresh ↦
        let same = done-injective (sym (lookup_miss k host p s fresh) ∙ e) in
        let cache : q.host_to_ip ≡ hosts.put host (next_ip p) (hosts.get host p.host_to_ip).0 =
          ap (λ r. r.0.host_to_ip) (sym same) in
        let at : next_ip p ≡ ip = ap (λ r. r.1) same in
        rw (cache, ← at)
          (hosts_laws.get-put_self host (next_ip p) _
            (rw (hosts_laws.cap-get host p.host_to_ip) s.hosts_room))
    | inr (old, known) ↦
        let same = done-injective (sym (lookup_hit host p old known) ∙ e) in
        let cache : q.host_to_ip ≡ (hosts.get host p.host_to_ip).0 =
          ap (λ r. r.0.host_to_ip) (sym same) in
        let at : old ≡ ip = ap (λ r. r.1) same in
        rw (cache, ← at) (hosts_laws.get-get host host p.host_to_ip ∙ known)
  ]

  -- Once looked up, a host has the same address at the lookup that follows.
  pub lookup-lookup_self :
      (k : ℕ) (host : Text) (p : FakeIpPool C D) {q : FakeIpPool C D} {ip : ℕ}
      → Serves ips hosts k p
      → lookup ips hosts b host p ≡ done (q, ip)
      → (r : FakeIpPool C D) × (lookup ips hosts b host q ≡ done (r, ip))
  lookup-lookup_self k host p {q} {ip} s e =
      (read_host host q, lookup_hit host q ip (known_after k host p s e))

  -- The address that a new host has just been given leads back to the host.
  pub reverse_lookup-lookup :
      (k : ℕ) (host : Text) (p : FakeIpPool C D) {q : FakeIpPool C D} {ip : ℕ}
      → Serves ips hosts k p
      → (hosts.get host p.host_to_ip).1 ≡ none
      → lookup ips hosts b host p ≡ done (q, ip)
      → (reverse_lookup ips hosts b ip q).1 ≡ some host
  unfolding reverse_lookup Cache.get
  reverse_lookup-lookup k host p {q} {ip} s fresh e =
      let same = done-injective (sym (lookup_miss k host p s fresh) ∙ e) in
      let cache : q.ip_to_host ≡ ips.put (next_ip p) host p.ip_to_host =
        ap (λ r. r.0.ip_to_host) (sym same) in
      let at : next_ip p ≡ ip = ap (λ r. r.1) same in
      rw (cache, ← at) (ips_laws.get-put_self (next_ip p) host p.ip_to_host s.ips_room)

  -- Over caches that keep their documented laws, on a pool that serves: a host that was looked up
  -- has the same address at the lookup that follows, and it had this address already or the address
  -- leads back to the host.
  pub lookup_settles :
      (k : ℕ) (host : Text) (p : FakeIpPool C D) {q : FakeIpPool C D} {ip : ℕ}
      → Serves ips hosts k p
      → lookup ips hosts b host p ≡ done (q, ip)
      → ((r : FakeIpPool C D) × (lookup ips hosts b host q ≡ done (r, ip)))
        × (((hosts.get host p.host_to_ip).1 ≡ some ip)
            ⊎ ((reverse_lookup ips hosts b ip q).1 ≡ some host))
  lookup_settles k host p {q} {ip} s e = (
    lookup-lookup_self k host p s e,
    elim (Option-cases (hosts.get host p.host_to_ip).1) [
      | inl fresh ↦ inr (reverse_lookup-lookup k host p s fresh e)
      | inr (old, known) ↦
          let same = done-injective (sym (lookup_hit host p old known) ∙ e) in
          inl (known ∙ ap some (ap (λ r. r.1) same))
    ],
  )

  -- Over caches that keep their documented laws, on a pool that serves and where another host
  -- holds the address that comes next: a lookup of a new host, with room in the cache of hosts,
  -- takes the address over. Afterwards the old host is still given that address, and the address
  -- leads to the new host.
  pub lookup_takes_over :
      (k : ℕ) (old fresh_host : Text) (p : FakeIpPool C D)
      → Serves ips hosts k p
      → old ≢ fresh_host
      → (hosts.get old p.host_to_ip).1 ≡ some (next_ip p)
      → (hosts.get fresh_host p.host_to_ip).1 ≡ none
      → hosts.len (hosts.get fresh_host p.host_to_ip).0
        < hosts.cap (hosts.get fresh_host p.host_to_ip).0
      → (q r : FakeIpPool C D) × (lookup ips hosts b fresh_host p ≡ done (q, next_ip p))
        × (lookup ips hosts b old q ≡ done (r, next_ip p))
        × ((reverse_lookup ips hosts b (next_ip p) r).1 ≡ some fresh_host)
  unfolding reverse_lookup Cache.get
  lookup_takes_over k old new_host p s other held fresh room =
      let q = store_host new_host (next_ip p) p in
      let kept =
        hosts_laws.get-put_room old new_host (next_ip p) (hosts.get new_host p.host_to_ip).0 other
          room
        ∙ hosts_laws.get-get old new_host p.host_to_ip
        ∙ held in
      (
        q,
        read_host old q,
        lookup_miss k new_host p s fresh,
        lookup_hit old q (next_ip p) kept,
        ips_laws.get-put_self (next_ip p) new_host p.ip_to_host s.ips_room,
      )
