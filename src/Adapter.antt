-- ===== src/Adapter.antt =====
-- redog-adapter: the built-in adapters and the proxy groups.
pub mod Outbound
pub mod Conn
pub mod Selector
pub mod UrlTest
mod Tests
