-- ===== src/Transport.antt =====
-- redog-transport: the SOCKS5 codec; and the connections and the relay of redog-common and redog-tunnel.
pub mod Wire
pub mod Net
pub mod Socks5
