-- ===== src/Component/FakeIp.antt =====
-- redog-component/src/fakeip.rs: the pool of virtual addresses. The two caches are of the crate
-- `lru` (Common/Cache), the lock around the offset is a field.
pub mod Range
pub mod Allocate
pub mod Lookup
pub mod Cycle
pub mod History
mod Fifo
mod Tests
use redog.Common.{
  ℕ, ◌+◌, ◌-◌, ◌*◌, ◌%◌, Bool, true, false, ◌&&◌, Text, codes, List, [], ◌∷◌, ◌++◌, Option, none,
  some, ltb, leb, ◌==◌, if◌then◌else◌, length, split, is_digit, parse_uint, Parsed, parsed, failed,
  bind_parsed, map_failed,
}
use redog.Common.Cache
use redog.Common.Cache.{InnerLru}
use redog.Core.Address.{IpAddr, v4, v6}
use redog.Core.Error.{Build, debug, release, Outcome, done, panic, bind_outcome}
use redog.Core.Words.{add_u32, sub_u32, shl_u32, not_u32}
use Prim.Native.Nat.{bit_and}

-- `C` and `D` are the types of the two caches.
pub record FakeIpPool (C D : Type 0) : Type 0 where
  pub ip_to_host : C
  pub host_to_ip : D
  pub network : ℕ
  pub mask : ℕ
  pub pool_size : ℕ
  pub offset : ℕ

-- One octet of `Ipv4Addr::from_str`: at most three digits, no leading zero, at most 255.
unfoldable pub parse_octet : Text → Option ℕ
unfolding parse_uint is_digit
parse_octet [] = none
parse_octet (c ∷ []) = if is_digit c then some (c - b'0') else none
parse_octet (c ∷ d ∷ s) =
    if is_digit c && (if c == b'0' then false else leb (length s) 1)
    then elim (parse_uint 255 (c ∷ d ∷ s)) [ parsed n ↦ some n | failed _ ↦ none ]
    else none

abbrev octets : Option ℕ → Option ℕ → Option ℕ → Option ℕ → Option ℕ
octets (some a) (some b) (some c) (some d) = some (((a * 256 + b) * 256 + c) * 256 + d)
octets _ _ _ _ = none

-- `Ipv4Addr::from_str`
abbrev ipv4_of_parts : List Text → Option ℕ
ipv4_of_parts (a ∷ b ∷ c ∷ d ∷ []) =
    octets (parse_octet a) (parse_octet b) (parse_octet c) (parse_octet d)
ipv4_of_parts _ = none

unfoldable pub parse_ipv4 : Text → Parsed ℕ
unfolding parse_octet split
parse_ipv4 s = elim (ipv4_of_parts (split b'.' s)) [
  | some n ↦ parsed n
  | none ↦ failed (codes "invalid IPv4 address syntax")
]

-- The mask of `new`.
unfoldable pub network_mask : Build → ℕ → Outcome ℕ
unfolding sub_u32 shl_u32
network_mask b prefix_len =
    if prefix_len == 0
    then done 0
    else bind_outcome (sub_u32 b 32 prefix_len) λ host_bits.
      bind_outcome (shl_u32 b 1 host_bits)
        λ size. bind_outcome (sub_u32 b size 1) λ low. done (not_u32 low)

unfoldable pub pool_size_of : Build → ℕ → Outcome ℕ
unfolding sub_u32 shl_u32
pool_size_of b prefix_len =
    bind_outcome (sub_u32 b 32 prefix_len) λ host_bits. shl_u32 b 1 host_bits

-- `pool_size.saturating_sub(2).max(1)`
abbrev pub usable : {C D : Type 0} → FakeIpPool C D → ℕ
usable p = if ltb (p.pool_size - 2) 1 then 1 else p.pool_size - 2

module _ {C D : Type 0} (ips : InnerLru ℕ Text C) (hosts : InnerLru Text ℕ D) (b : Build) where
  -- `new` from the parsed range on.
  unfoldable pub new_pool : ℕ → ℕ → ℕ → Outcome (FakeIpPool C D)
  unfolding network_mask pool_size_of
  new_pool network prefix_len capacity = bind_outcome (network_mask b prefix_len) λ mask.
      bind_outcome (pool_size_of b prefix_len) λ pool_size. done (record {
        ip_to_host = Cache.new ips capacity;
        host_to_ip = Cache.new hosts capacity;
        network = bit_and network mask;
        mask = mask;
        pool_size = pool_size;
        offset = 1;
      })

  abbrev new_from : Text → List Text → ℕ → Outcome (Parsed (FakeIpPool C D))
  new_from cidr (address ∷ len ∷ []) capacity = elim (parse_ipv4 address) [
    | failed e ↦ done (failed (codes "invalid IP: " ++ e))
    | parsed ip ↦ elim (parse_uint 4294967295 len) [
      | failed e ↦ done (failed (codes "invalid prefix length: " ++ e))
      | parsed prefix_len ↦ bind_outcome (new_pool ip prefix_len capacity) (λ p. done (parsed p))
    ]
  ]
  new_from cidr _ capacity = done (failed (codes "invalid CIDR: " ++ cidr))

  -- `FakeIpPool::new`
  unfoldable pub new : Text → ℕ → Outcome (Parsed (FakeIpPool C D))
  unfolding parse_ipv4 new_pool split parse_uint
  new cidr capacity = new_from cidr (split b'/' cidr) capacity

  -- `allocate`: the pool with its offset moved on, and the address.
  unfoldable pub allocate : FakeIpPool C D → Outcome (FakeIpPool C D × ℕ)
  unfolding add_u32
  allocate p = bind_outcome (add_u32 b p.network (p.offset % usable p)) λ base.
      bind_outcome (add_u32 b base 1) λ ip_num.
        bind_outcome (add_u32 b p.offset 1)
          λ next. done (record p { offset = next % usable p }, ip_num)

  -- `lookup`
  unfoldable pub lookup : Text → FakeIpPool C D → Outcome (FakeIpPool C D × ℕ)
  unfolding allocate
  lookup host p =
      let (found_in, found) = Cache.get hosts host p.host_to_ip in
      let q = record p { host_to_ip = found_in } in
      elim found [
        | some ip ↦ done (q, ip)
        | none ↦ bind_outcome (allocate q) λ r. done (
          record r.0 {
            ip_to_host = Cache.put ips r.1 host q.ip_to_host;
            host_to_ip = Cache.put hosts host r.1 q.host_to_ip;
          },
          r.1,
        )
      ]

  -- `reverse_lookup`
  unfoldable pub reverse_lookup : ℕ → FakeIpPool C D → FakeIpPool C D × Option Text
  reverse_lookup ip p =
      let (c, host) = Cache.get ips ip p.ip_to_host in (record p { ip_to_host = c }, host)

-- `contains`
unfoldable pub contains : {C D : Type 0} → FakeIpPool C D → IpAddr → Bool
contains p (v4 n) = bit_and n p.mask == p.network
contains p (v6 _) = false
