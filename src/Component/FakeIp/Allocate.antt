-- ===== src/Component/FakeIp/Allocate.antt =====
-- What `new` sets up, and that `allocate` goes round the usable addresses of the range.
use redog.Common.{
  ℕ, suc, ◌+◌, ◌-◌, ◌*◌, ◌/◌, ◌%◌, ◌^◌, ◌≤◌, ◌<◌, true, false, Text, ◌≡◌, ◌≢◌, refl, ap, sym, ◌∙◌,
  arith, zero,
}
use redog.Common.Cache
use redog.Common.Cache.{InnerLru}
use redog.Common.Masks.{two_pow_pos, bit_and-mask}
use redog.Component.FakeIp.{FakeIpPool, new_pool, usable, allocate, contains}
use redog.Core.Address.{v4}
use redog.Core.Error.{Build, debug, release, Outcome, done, panic, bind_outcome}
use redog.Core.Words.{add_u32}
use Prim.Native.Nat.{bit_and}
use native.Mathlib.Nat.{mod-add-mod, add-mod_right, div-add-mod'}
use redog.Component.FakeIp.Range.{
  IsPool, range_fits, mod-add-ne, usable_pos, usable_below, contains_host, pool_size_of_lem,
  network_mask_lem, upper_fits,
}

module _ {C D : Type 0} (ips : InnerLru ℕ Text C) (hosts : InnerLru Text ℕ D) (b : Build) where
  -- In a range with a host bit `allocate` does not overflow, in either build.
  pub allocate_lem :
      (p : FakeIpPool C D) (k : ℕ)
      → IsPool k p
      → 1 ≤ k
      → allocate ips hosts b p
        ≡ done
            (record p { offset = (p.offset + 1) % usable p }, p.network + p.offset % usable p + 1)
  unfolding allocate add_u32
  allocate_lem p k i h =
      let u = usable p in
      let below : p.offset % u < u = omega (arith, usable_pos p) in
      let top = range_fits i.w k i.base i.width i.base_fits in
      let room : u + 1 ≤ 2 ^ k = usable_below p k i h in
      ground (arith, i.network_is, i.offset_fits, below, top, room)

  -- The address that `allocate` returns lies in the range.
  pub allocated-contains :
      (p : FakeIpPool C D) (k : ℕ)
      → IsPool k p
      → 1 ≤ k
      → contains p (v4 (p.network + p.offset % usable p + 1)) ≡ true
  allocated-contains p k i h =
      let e : p.network + p.offset % usable p + 1 ≡ p.network + (p.offset % usable p + 1) =
        omega arith in
      let below : p.offset % usable p < usable p = omega (arith, usable_pos p) in
      rw e
        (contains_host p k (p.offset % usable p + 1) i (omega (arith, below, usable_below p k i h)))

  pub after_allocate-IsPool :
      (p : FakeIpPool C D) (k : ℕ)
      → IsPool k p
      → 1 ≤ k
      → IsPool k (record p { offset = (p.offset + 1) % usable p })
  after_allocate-IsPool p k i h = record {
    w = i.w;
    base = i.base;
    width = i.width;
    base_fits = i.base_fits;
    network_is = i.network_is;
    mask_is = i.mask_is;
    size_is = i.size_is;
    offset_fits =
        let u = usable p in
        let below : (p.offset + 1) % u < u = omega (arith, usable_pos p) in
        omega (arith, below, usable_below p k i h, range_fits i.w k i.base i.width i.base_fits);
  }

  -- In a range of two addresses or more, `allocate` returns in either build; its address lies in
  -- the range, is not the network address, and the pool stays well formed.
  pub allocate-contains :
      (p : FakeIpPool C D) (k : ℕ)
      → IsPool k p
      → 1 ≤ k
      → (q : FakeIpPool C D) × (ip : ℕ) × (allocate ips hosts b p ≡ done (q, ip))
        × (contains q (v4 ip) ≡ true)
        × (p.network < ip)
        × IsPool k q
  allocate-contains p k i h =
      let q = record p { offset = (p.offset + 1) % usable p } in
      (
        q,
        p.network + p.offset % usable p + 1,
        allocate_lem p k i h,
        unfold contains in allocated-contains p k i h,
        omega arith,
        after_allocate-IsPool p k i h,
      )

  -- The address that the call of `allocate` after `n` others returns.
  pub address_at : ℕ → FakeIpPool C D → Outcome ℕ
  address_at zero p = bind_outcome (allocate ips hosts b p) (λ r. done r.1)
  address_at (suc n) p = bind_outcome (allocate ips hosts b p) (λ r. address_at n r.0)

  pub address_at_lem :
      (n : ℕ) (p : FakeIpPool C D) (k : ℕ)
      → IsPool k p
      → 1 ≤ k
      → address_at n p ≡ done (p.network + (p.offset + n) % usable p + 1)
  unfolding address_at
  address_at_lem zero p k i h =
      rw (allocate_lem p k i h) (ap (λ (t : ℕ). done (p.network + t % usable p + 1)) (omega arith))
  address_at_lem (suc n) p k i h = rw (allocate_lem p k i h) (
      address_at_lem n _ k (after_allocate-IsPool p k i h) h
      ∙ ap (λ (t : ℕ). done (p.network + t + 1))
          (mod-add-mod (p.offset + 1) (usable p) n ∙ ap (λ (t : ℕ). t % usable p) (omega arith)))

  -- In a range of two addresses or more: for calls of `allocate` that are fewer apart than there
  -- are usable addresses, the two addresses differ.
  pub address_at-ne :
      (i j : ℕ) (p : FakeIpPool C D) (k : ℕ)
      → IsPool k p
      → 1 ≤ k
      → i < j
      → j < i + usable p
      → address_at i p ≢ address_at j p
  address_at-ne i j p k w h lt near e =
      let u = usable p in
      let e' : done (p.network + (p.offset + i) % u + 1)
          ≡ done (p.network + (p.offset + j) % u + 1) =
        sym (address_at_lem i p k w h) ∙ e ∙ address_at_lem j p k w h in
      let same : (p.offset + i) % u ≡ (p.offset + j) % u = ground arith in
      let shift : p.offset + i + (j - i) ≡ p.offset + j = omega arith in
      mod-add-ne (p.offset + i) (j - i) u (omega arith) (omega arith)
        (ap (λ (t : ℕ). t % u) shift ∙ sym same)

  -- In a range of two addresses or more: after as many calls of `allocate` as there are usable
  -- addresses, the addresses come again.
  pub address_at_period :
      (n : ℕ) (p : FakeIpPool C D) (k : ℕ)
      → IsPool k p
      → 1 ≤ k
      → address_at (n + usable p) p ≡ address_at n p
  address_at_period n p k i h =
      address_at_lem (n + usable p) p k i h
      ∙ ap (λ (t : ℕ). done (p.network + t + 1))
          (ap (λ (t : ℕ). t % usable p)
              (let e : p.offset + (n + usable p) ≡ p.offset + n + usable p = omega arith in e)
            ∙ add-mod_right (p.offset + n) (usable p))
      ∙ sym (address_at_lem n p k i h)

  -- `new_pool` on a prefix of 1 to 32 bits returns in either build a pool whose range has as many
  -- host bits as the prefix leaves and holds the given address, with new caches.
  pub new_pool-IsPool :
      (network prefix_len capacity : ℕ)
      → network < 4294967296
      → 1 ≤ prefix_len
      → prefix_len ≤ 32
      → (p : FakeIpPool C D) × (new_pool ips hosts b network prefix_len capacity ≡ done p)
        × IsPool (32 - prefix_len) p
        × (p.network ≤ network)
        × (network < p.network + p.pool_size)
        × (p.ip_to_host ≡ Cache.new ips capacity)
        × (p.host_to_ip ≡ Cache.new hosts capacity)
  unfolding new_pool
  new_pool-IsPool network prefix_len capacity fits lo hi =
      let k = 32 - prefix_len in
      let q = network / 2 ^ k in
      let r = network % 2 ^ k in
      let split : q * 2 ^ k + r ≡ network = div-add-mod' network (2 ^ k) in
      let small : r < 2 ^ k = omega (arith, two_pow_pos k) in
      let low : q < 2 ^ prefix_len = upper_fits prefix_len k network (omega arith) fits in
      let masked : bit_and network ((2 ^ prefix_len - 1) * 2 ^ k) ≡ q * 2 ^ k =
        ap (λ (t : ℕ). bit_and t ((2 ^ prefix_len - 1) * 2 ^ k)) (sym split)
        ∙ bit_and-mask k prefix_len q r small low in
      (
        record {
          ip_to_host = Cache.new ips capacity;
          host_to_ip = Cache.new hosts capacity;
          network = bit_and network ((2 ^ prefix_len - 1) * 2 ^ k);
          mask = (2 ^ prefix_len - 1) * 2 ^ k;
          pool_size = 2 ^ k;
          offset = 1;
        },
        rw (network_mask_lem b prefix_len lo hi, pool_size_of_lem b prefix_len lo hi),
        record {
          w = prefix_len;
          base = q;
          width = omega arith;
          base_fits = low;
          network_is = masked;
          mask_is = refl;
          size_is = refl;
          offset_fits = omega arith;
        },
        omega (arith, masked, split),
        omega (arith, masked, split, small),
        refl,
        refl,
      )

  -- In a range of a single address that is not the highest of all, the address that `allocate`
  -- returns is the one after it, which `contains` refuses.
  pub allocate_single :
      (p : FakeIpPool C D)
      → IsPool 0 p
      → p.network < 4294967295
      → (q : FakeIpPool C D) × (allocate ips hosts b p ≡ done (q, p.network + 1))
        × (contains q (v4 (p.network + 1)) ≡ false)
  unfolding allocate add_u32 contains
  allocate_single p i h =
      let one : p.offset % 1 ≡ 0 = omega arith in
      let all : i.w ≡ 32 = omega (arith, i.width) in
      let full : p.mask ≡ (2 ^ 32 - 1) * 2 ^ 0 =
        i.mask_is ∙ ap (λ (t : ℕ). (2 ^ t - 1) * 2 ^ 0) all in
      let size : p.pool_size ≡ 1 = i.size_is in
      let kept : bit_and (p.network + 1) ((2 ^ 32 - 1) * 2 ^ 0) ≡ p.network + 1 =
        ap (λ (t : ℕ). bit_and t ((2 ^ 32 - 1) * 2 ^ 0))
          (let e : p.network + 1 ≡ (p.network + 1) * 2 ^ 0 + 0 = omega arith in e)
        ∙ bit_and-mask 0 32 (p.network + 1) 0 (omega arith) (omega arith)
        ∙ omega arith in
      (
        record p { offset = (p.offset + 1) % usable p },
        ground (arith, i.offset_fits),
        rw full (rw kept (ground arith)),
      )

module _ {C D : Type 0} (ips : InnerLru ℕ Text C) (hosts : InnerLru Text ℕ D) where
  -- The whole address space, a prefix of 0 bits: a debug build panics, and a release build makes
  -- a pool of one address.
  pub new_pool_whole :
      (network capacity : ℕ)
      → (new_pool ips hosts debug network 0 capacity ≡ panic)
        × ((p : FakeIpPool C D) × (new_pool ips hosts release network 0 capacity ≡ done p)
            × (p.pool_size ≡ 1))
  unfolding new_pool
  new_pool_whole network capacity = (refl, (_, refl, refl))
