-- ===== src/Component/Sniffer.antt =====
-- redog-component/src/sniffer.rs: the host name in the first bytes of a connection. A read of a
-- byte or of a slice out of range is a panic.
pub mod Scan
pub mod Tls
pub mod Message
pub mod Hello
pub mod Total
pub mod Http
pub mod Hosts
mod Tests
