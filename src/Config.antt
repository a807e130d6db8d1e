-- ===== src/Config.antt =====
-- redog-config: the configuration file's data, and its validation.
pub mod Types
pub mod Validate
pub mod Valid
mod Tests
