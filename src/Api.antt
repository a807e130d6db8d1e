-- ===== src/Api.antt =====
-- redog-api/src/server.rs: the handlers of the HTTP interface over the tunnel that they share.
pub mod State
pub mod Server
pub mod Entries
pub mod Selection
pub mod Modes
mod Tests
