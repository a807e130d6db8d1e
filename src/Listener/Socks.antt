-- ===== src/Listener/Socks.antt =====
-- redog-listener/src/socks/mod.rs: `handle_socks_connection`, also the SOCKS5 half of mixed/mod.rs.
use redog.Common.{Text, codes, ◌++◌, some}
use redog.Core.Address.{IpAddr, SocketAddr}
use redog.Core.Error.{protocol}
use redog.Core.Metadata.{Metadata, new_metadata, tcp, socks5}
use redog.Transport.Socks5.{
  Command, connect, bind, udp_associate, Address, address_host, address_port, address_ip,
  server_handshake,
}
use redog.Transport.Wire.{Codec, ◌>>=◌, return, fail}

-- The metadata of a connection for a client's request.
unfoldable pub socks_metadata : (IpAddr → Text) → SocketAddr → Address → Metadata
unfolding new_metadata address_host address_port address_ip
socks_metadata show_ip peer_addr addr = record (new_metadata tcp socks5) {
  src_addr = peer_addr;
  host = some (address_host show_ip addr);
  dst_port = address_port addr;
  dst_ip = address_ip addr;
}

-- How a command is printed by `{:?}`.
abbrev pub debug_command : Command → Text
debug_command connect = codes "Connect"
debug_command bind = codes "Bind"
debug_command udp_associate = codes "UdpAssociate"

abbrev pub answer : (IpAddr → Text) → SocketAddr → Command × Address → Codec Metadata
answer show_ip peer_addr (connect, addr) = return (socks_metadata show_ip peer_addr addr)
answer show_ip peer_addr (cmd, addr) =
    fail (protocol (codes "unsupported SOCKS5 command: " ++ debug_command cmd))

unfoldable pub handle_socks_connection : (IpAddr → Text) → SocketAddr → Codec Metadata
unfolding server_handshake socks_metadata
handle_socks_connection show_ip peer_addr = do
  request ← server_handshake
  answer show_ip peer_addr request
