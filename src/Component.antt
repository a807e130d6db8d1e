-- ===== src/Component.antt =====
-- redog-component: the trie of domains, the pool of virtual addresses, the table of UDP sessions.
pub mod Trie
pub mod FakeIp
pub mod Nat
pub mod Sniffer
