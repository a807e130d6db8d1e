-- ===== src/Dns.antt =====
-- redog-dns: the resolver of the system.
pub mod Resolver
pub mod Choice
mod Tests
