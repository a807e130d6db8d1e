-- ===== src/Core.antt =====
-- redog-core: the types that every other part uses.
pub mod Error
pub mod Words
pub mod Address
pub mod Metadata
pub mod Rule
pub mod Adapter
