-- ===== src/Listener.antt =====
-- redog-listener: the targets of HTTP requests, and the handlers of the three listeners.
pub mod HostPort
pub mod Targets
pub mod Socks
pub mod Requests
pub mod Reader
pub mod Http
pub mod Mixed
pub mod Reading
pub mod Headers
pub mod Proxying
pub mod Ending
pub mod Both
pub mod Accept
mod Tests
