-- ===== src/Component/FakeIp/Cycle.antt =====
-- The calls of `new` and `allocate` on every prefix and every range, and how the addresses come round.
use redog.Common.{
  ℕ, suc, zero, ◌+◌, ◌-◌, ◌%◌, ◌≤◌, ◌<◌, true, false, Text, ◌≡◌, ◌↔◌, refl, ap, sym, ◌∙◌, arith,
}
use redog.Common.Cache
use redog.Common.Cache.{InnerLru}
use redog.Component.FakeIp.{FakeIpPool, new_pool, usable, allocate, contains}
use redog.Component.FakeIp.Allocate.{
  allocate-contains, allocate_single, address_at, address_at_lem, new_pool-IsPool, new_pool_whole,
}
use redog.Component.FakeIp.Range.{IsPool, usable_pos}
use redog.Core.Address.{v4}
use redog.Core.Error.{Build, debug, release, Outcome, done, panic}
use native.Mathlib.Nat.{mod-add-mod, add-mod_right}

-- Adding the same to both sides of a congruence.
mod_shift : (i j n u : ℕ) → i % u ≡ j % u → (i + n) % u ≡ (j + n) % u
mod_shift i j n u e = sym (mod-add-mod i u n) ∙ ap (λ (t : ℕ). (t + n) % u) e ∙ mod-add-mod j u n

-- Taking the same from both sides.
mod_unshift : (i j n u : ℕ) → 1 ≤ u → (i + n) % u ≡ (j + n) % u → i % u ≡ j % u
mod_unshift i j zero u h e =
    ap (λ (t : ℕ). t % u) (omega arith) ∙ e ∙ ap (λ (t : ℕ). t % u) (omega arith)
mod_unshift i j (suc n) u h e =
    let back : (m : ℕ) → (m + suc n + (u - 1)) % u ≡ (m + n) % u =
      λ m. ap (λ (t : ℕ). t % u) (omega arith) ∙ add-mod_right (m + n) u in
    mod_unshift i j n u h (sym (back i) ∙ mod_shift (i + suc n) (j + suc n) (u - 1) u e ∙ back j)

module _ {C D : Type 0} (ips : InnerLru ℕ Text C) (hosts : InnerLru Text ℕ D) (b : Build) where
  -- In a range of two addresses or more, two calls of `allocate` return the same address exactly
  -- if the numbers of the calls before them are congruent modulo the number of usable addresses.
  pub address_at_iff :
      (i j : ℕ) (p : FakeIpPool C D) (k : ℕ)
      → IsPool k p
      → 1 ≤ k
      → (address_at ips hosts b i p ≡ address_at ips hosts b j p) ↔ (i % usable p ≡ j % usable p)
  address_at_iff i j p k w h =
      let at : (n : ℕ)
          → address_at ips hosts b n p ≡ done (p.network + (n + p.offset) % usable p + 1) =
        λ n.
          address_at_lem ips hosts b n p k w h
          ∙ ap (λ (t : ℕ). done (p.network + t % usable p + 1)) (omega arith) in
      (
        λ e.
            let whole : done (p.network + (i + p.offset) % usable p + 1)
                ≡ done (p.network + (j + p.offset) % usable p + 1) =
              sym (at i) ∙ e ∙ at j in
            mod_unshift i j p.offset (usable p) (usable_pos p) (ground (arith, whole)),
        λ e.
            at i
            ∙ ap (λ (t : ℕ). done (p.network + t + 1)) (mod_shift i j p.offset (usable p) e)
            ∙ sym (at j),
      )

  -- What `allocate` returns: an address of the range that is not the network address, and a
  -- well-formed pool; but from a range of a single address the one after it, which `contains`
  -- refuses.
  abbrev pub Allocated : ℕ → FakeIpPool C D → FakeIpPool C D → ℕ → Type 0
  Allocated zero p q ip = (ip ≡ p.network + 1) × (contains q (v4 ip) ≡ false)
  Allocated (suc k) p q ip = (contains q (v4 ip) ≡ true) × (p.network < ip) × IsPool (suc k) q

  -- On a well-formed pool whose network address is not the highest of all, `allocate` returns in
  -- either build. In a range of two addresses or more the address lies in the range and is not the
  -- network address, and the pool stays well formed; in a range of one it is the one after the range,
  -- which `contains` refuses.
  pub allocate-Allocated :
      (p : FakeIpPool C D) (k : ℕ)
      → IsPool k p
      → p.network < 4294967295
      → (q : FakeIpPool C D) × (ip : ℕ) × (allocate ips hosts b p ≡ done (q, ip))
        × Allocated k p q ip
  allocate-Allocated p zero i h =
      let (q, e, out) = allocate_single ips hosts b p i h in (q, p.network + 1, e, (refl, out))
  allocate-Allocated p (suc k) i h =
      let (q, ip, e, inside, above, kept) =
        allocate-contains ips hosts b p (suc k) i (omega arith) in
      (q, ip, e, (inside, above, kept))

  -- What `new_pool` makes of a prefix.
  abbrev pub NewPool : Build → ℕ → ℕ → ℕ → Outcome (FakeIpPool C D) → Type 0
  NewPool debug network zero capacity o = o ≡ panic
  NewPool release network zero capacity o = (p : FakeIpPool C D) × (o ≡ done p) × (p.pool_size ≡ 1)
  NewPool build network (suc n) capacity o =
      (p : FakeIpPool C D) × (o ≡ done p)
      × IsPool (32 - suc n) p
      × (p.network ≤ network)
      × (network < p.network + p.pool_size)
      × (p.ip_to_host ≡ Cache.new ips capacity)
      × (p.host_to_ip ≡ Cache.new hosts capacity)

  -- `new_pool` on a prefix of 1 to 32 bits returns in either build a pool whose range has as many
  -- host bits as the prefix leaves and holds the given address, with new caches. For a prefix of 0
  -- bits a debug build panics, and a release build makes a pool of one address.
  pub new_pool-NewPool :
      (network prefix_len capacity : ℕ)
      → network < 4294967296
      → prefix_len ≤ 32
      → NewPool b network prefix_len capacity (new_pool ips hosts b network prefix_len capacity)
  new_pool-NewPool network prefix_len capacity fits hi = on_prefix prefix_len b hi
    where
      on_prefix :
          (n : ℕ) (c : Build)
          → n ≤ 32
          → NewPool c network n capacity (new_pool ips hosts c network n capacity)
      on_prefix zero debug h = (new_pool_whole ips hosts network capacity).0
      on_prefix zero release h = (new_pool_whole ips hosts network capacity).1
      on_prefix (suc n) c h =
          new_pool-IsPool ips hosts c network (suc n) capacity fits (omega arith) h
