-- ===== src/App.antt =====
-- redog/src/main.rs: what the program sets up, the restarts of its listeners, and its main loop.
pub mod Libs
pub mod Restart
pub mod Setup
pub mod Lines
pub mod Started
pub mod Ports
pub mod Dispatch
pub mod Permits
pub mod Waiting
pub mod Delivery
pub mod Progress
pub mod Journey
pub mod Listening
mod Queues
mod Tests
mod Examples
