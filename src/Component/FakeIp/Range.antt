-- ===== src/Component/FakeIp/Range.antt =====
-- The range of a pool: what `new` computes for a prefix, and the addresses that `contains` accepts.
use redog.Common.{
  ℕ, suc, ◌+◌, ◌-◌, ◌*◌, ◌/◌, ◌%◌, ◌^◌, ◌≤◌, ◌<◌, true, ◌≡◌, ◌≢◌, ap, ◌∙◌, arith, ==_refl, zero,
}
use redog.Common.Masks.{two_pow_add, two_pow-suc, two_pow_pos, bit_and-mask}
use redog.Component.FakeIp.{FakeIpPool, network_mask, pool_size_of, usable, contains}
use redog.Core.Address.{v4}
use redog.Core.Error.{Build, done}
use Prim.Native.Nat.{bit_and}
use native.Mathlib.Decide.{dec_lt}
use native.Mathlib.Nat.{mod-add-mod, mod-eq_of_lt, mod-eq-sub-mod, mul-le-mul_right, div-add-mod'}

-- The range of a prefix of `w` bits with `k` host bits, `base` its upper part.
pub record IsPool {C D : Type 0} (k : ℕ) (p : FakeIpPool C D) : Type 0 where
  pub w : ℕ
  pub base : ℕ
  pub width : w + k ≡ 32
  pub base_fits : base < 2 ^ w
  pub network_is : p.network ≡ base * 2 ^ k
  pub mask_is : p.mask ≡ (2 ^ w - 1) * 2 ^ k
  pub size_is : p.pool_size ≡ 2 ^ k
  pub offset_fits : p.offset < 4294967295

-- What concerns the caches does not matter to the range.
pub IsPool-same :
    {C D : Type 0} (k : ℕ) (p q : FakeIpPool C D)
    → IsPool k p
    → q.network ≡ p.network
    → q.mask ≡ p.mask
    → q.pool_size ≡ p.pool_size
    → q.offset ≡ p.offset
    → IsPool k q
IsPool-same k p q i n m z o = record {
  w = i.w;
  base = i.base;
  width = i.width;
  base_fits = i.base_fits;
  network_is = n ∙ i.network_is;
  mask_is = m ∙ i.mask_is;
  size_is = z ∙ i.size_is;
  offset_fits = omega arith;
}

pub two_pow_width : (w k : ℕ) → w + k ≡ 32 → 2 ^ w * 2 ^ k ≡ 4294967296
two_pow_width w k e = two_pow_add w k ∙ ap (λ (t : ℕ). 2 ^ t) e

-- The range ends below 2 ^ 32.
pub range_fits : (w k base : ℕ) → w + k ≡ 32 → base < 2 ^ w → base * 2 ^ k + 2 ^ k ≤ 4294967296
range_fits w k base e h = grind (arith, two_pow_width w k e)

pub two_le_size : (k : ℕ) → 1 ≤ k → 2 ≤ 2 ^ k
two_le_size zero h = absurd (omega arith)
two_le_size (suc k) h = omega (arith, two_pow-suc k, two_pow_pos k)

-- Adding less than the modulus changes the remainder.
pub mod-add-ne : (x d u : ℕ) → 0 < d → d < u → (x + d) % u ≢ x % u
mod-add-ne x d u pos small e =
    let r = x % u in
    let below : r < u = omega arith in
    let fold : (r + d) % u ≡ r = mod-add-mod x u d ∙ e in
    elim (dec_lt (r + d) u) [
      | yes lt ↦ omega (arith, mod-eq_of_lt lt)
      | no ge ↦
          let wrap : (r + d) % u ≡ (r + d - u) % u = mod-eq-sub-mod (omega arith) in
          let low : r + d - u < u = omega arith in omega (arith, mod-eq_of_lt low)
    ]

pub usable_pos : {C D : Type 0} (p : FakeIpPool C D) → 1 ≤ usable p
usable_pos p = ground arith

pub usable_below :
    {C D : Type 0} (p : FakeIpPool C D) (k : ℕ) → IsPool k p → 1 ≤ k → usable p + 1 ≤ 2 ^ k
usable_below p k i h = ground (arith, two_le_size k h, i.size_is)

-- The addresses of the range are those that `contains` accepts.
pub contains_host :
    {C D : Type 0} (p : FakeIpPool C D) (k host : ℕ)
    → IsPool k p
    → host < 2 ^ k
    → contains p (v4 (p.network + host)) ≡ true
unfolding contains
contains_host p k host i h =
    let e : bit_and (p.network + host) p.mask ≡ p.network =
      rw (i.network_is, i.mask_is) (bit_and-mask k i.w i.base host h i.base_fits) in
    rw e (==_refl p.network)

pub pool_size_fits : (n : ℕ) → 1 ≤ n → n ≤ 32 → 2 ^ (32 - n) < 4294967296
pool_size_fits n lo hi =
    let two = two_le_size n lo in
    let e = two_pow_width n (32 - n) (omega arith) in
    let pos = two_pow_pos (32 - n) in
    let le = mul-le-mul_right (2 ^ (32 - n)) two in omega (arith, e, pos, le)

-- The size of the range of a prefix of 1 to 32 bits.
pub pool_size_of_lem : (b : Build) (n : ℕ) → 1 ≤ n → n ≤ 32 → pool_size_of b n ≡ done (2 ^ (32 - n))
unfolding pool_size_of
pool_size_of_lem b n lo hi = ground (arith, pool_size_fits n lo hi)

-- The mask of a prefix of 1 to 32 bits: that many ones, then zeros.
pub network_mask_lem :
    (b : Build) (n : ℕ) → 1 ≤ n → n ≤ 32 → network_mask b n ≡ done ((2 ^ n - 1) * 2 ^ (32 - n))
unfolding network_mask
network_mask_lem b n lo hi =
    let e = two_pow_width n (32 - n) (omega arith) in
    let one : 2 ^ n - 1 + 1 ≡ 2 ^ n = omega (arith, two_pow_pos n) in
    let sum : (2 ^ n - 1) * 2 ^ (32 - n) + 2 ^ (32 - n) ≡ 4294967296 =
      omega (arith, ap (λ (t : ℕ). t * 2 ^ (32 - n)) one, e) in
    ground (arith, pool_size_fits n lo hi, two_pow_pos (32 - n), sum)

pub upper_fits : (w k x : ℕ) → w + k ≡ 32 → x < 4294967296 → x / 2 ^ k < 2 ^ w
upper_fits w k x e h =
    let whole = two_pow_width w k e in
    let part : x / 2 ^ k * 2 ^ k + x % 2 ^ k ≡ x = div-add-mod' x (2 ^ k) in
    elim (dec_lt (x / 2 ^ k) (2 ^ w)) [
      | yes lt ↦ lt
      | no ge ↦
          let le : 2 ^ w * 2 ^ k ≤ x / 2 ^ k * 2 ^ k = mul-le-mul_right (2 ^ k) (omega arith) in
          absurd (omega (arith, le, whole, part))
    ]
