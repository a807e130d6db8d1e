-- ===== src/Tunnel.antt =====
-- redog-tunnel: the routing engine and its statistics.
pub mod Statistics
pub mod Speeds
pub mod Routing
pub mod FirstMatch
pub mod Handler
pub mod Leaks
pub mod Counting
pub mod Order
mod Tests
