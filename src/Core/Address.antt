-- ===== src/Core/Address.antt =====
-- The addresses of `std::net` as the program uses them: an IPv4 address is its 32-bit number, an
-- IPv6 address its 128-bit number.
use redog.Common.{ℕ, Bool, true, false}

pub data IpAddr : Type 0 where
  v4 : ℕ → IpAddr
  v6 : ℕ → IpAddr

pub record SocketAddr : Type 0 where
  pub ip : IpAddr
  pub port : ℕ

-- `SocketAddr::is_ipv4`, `SocketAddr::is_ipv6`
unfoldable pub is_ipv4 : IpAddr → Bool
is_ipv4 (v4 n) = true
is_ipv4 (v6 n) = false

unfoldable pub is_ipv6 : IpAddr → Bool
is_ipv6 (v4 n) = false
is_ipv6 (v6 n) = true
