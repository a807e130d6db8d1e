-- ===== src/Listener/Requests.antt =====
-- What the SOCKS5 handler makes of a client's message.
use redog.Common.{◌<◌, Text, codes, [], ◌∷◌, ◌++◌, some, false, length, ◌≡◌, refl}
use redog.Common.Utf8.{Bytes}
use redog.Core.Address.{IpAddr, SocketAddr}
use redog.Core.Error.{protocol, Result, ok, err}
use redog.Core.Metadata.{Metadata, tcp, socks5, new_metadata}
use redog.Listener.Socks.{socks_metadata, handle_socks_connection}
use redog.Transport.Socks5.{
  Command, connect, bind, udp_associate, Address, address_host, address_port, address_ip, reply,
}
use redog.Transport.Socks5.RoundTrip.{Fits, client_message, server_handshake-client_message}
use redog.Transport.Wire.{Wire}

-- The metadata describe the client's request.
pub record Describes (show_ip : IpAddr → Text) (peer_addr : SocketAddr) (a : Address) (m : Metadata)
    : Type 0 where
  pub over_tcp : m.network ≡ tcp
  pub inbound : m.inbound_type ≡ socks5
  pub peer : m.src_addr ≡ peer_addr
  pub host_is : m.host ≡ some (address_host show_ip a)
  pub port_is : m.dst_port ≡ address_port a
  pub ip_is : m.dst_ip ≡ address_ip a

-- The answer to a request: a connection for `connect`, and an error for the other commands.
abbrev pub Served : (IpAddr → Text) → SocketAddr → Command → Address → Result Metadata → Type 0
Served show_ip peer_addr connect a (ok m) = Describes show_ip peer_addr a m
Served show_ip peer_addr connect a (err e) = ⊥
Served show_ip peer_addr bind a (ok m) = ⊥
Served show_ip peer_addr bind a (err e) = Unit
Served show_ip peer_addr udp_associate a (ok m) = ⊥
Served show_ip peer_addr udp_associate a (err e) = Unit

-- The metadata that are returned for `connect`.
pub connect_message :
    (show_ip : IpAddr → Text) (peer_addr : SocketAddr) (methods : Bytes) (a : Address)
    (rest : Bytes) (w : Wire)
    → length methods < 256
    → Fits a
    → w.broken ≡ false
    → w.input ≡ client_message methods connect a ++ rest
    → handle_socks_connection show_ip peer_addr w ≡ (
      record w { input = rest; output = (w.output ++ (5 ∷ 0 ∷ [])) ++ reply },
      ok (socks_metadata show_ip peer_addr a),
    )
unfolding handle_socks_connection
connect_message show_ip peer_addr methods a rest w few f live e =
    rw (server_handshake-client_message methods connect a rest w few f live e) refl

-- For a client's message with fewer than 256 methods and an address that the format can carry,
-- over a live connection, the handler returns the metadata of the request for `connect`, and an
-- error for the other two commands; in both cases it has read the message and no more, and has
-- written the reply of success.
pub handle_socks_connection-client_message :
    (show_ip : IpAddr → Text) (peer_addr : SocketAddr) (methods : Bytes) (c : Command) (a : Address)
    (rest : Bytes) (w : Wire)
    → length methods < 256
    → Fits a
    → w.broken ≡ false
    → w.input ≡ client_message methods c a ++ rest
    → (r : Result Metadata) × (handle_socks_connection show_ip peer_addr w
        ≡ (record w { input = rest; output = (w.output ++ (5 ∷ 0 ∷ [])) ++ reply }, r))
      × Served show_ip peer_addr c a r
unfolding handle_socks_connection socks_metadata new_metadata
handle_socks_connection-client_message show_ip peer_addr methods connect a rest w few f live e = (
  ok (socks_metadata show_ip peer_addr a),
  connect_message show_ip peer_addr methods a rest w few f live e,
  record {
    over_tcp = refl;
    inbound = refl;
    peer = refl;
    host_is = refl;
    port_is = refl;
    ip_is = refl;
  },
)
handle_socks_connection-client_message show_ip peer_addr methods bind a rest w few f live e = (
  err (protocol (codes "unsupported SOCKS5 command: Bind")),
  rw (server_handshake-client_message methods bind a rest w few f live e) refl,
  tt,
)
handle_socks_connection-client_message show_ip peer_addr methods udp_associate a rest w few f live
      e =
    (
      err (protocol (codes "unsupported SOCKS5 command: UdpAssociate")),
      rw (server_handshake-client_message methods udp_associate a rest w few f live e) refl,
      tt,
    )
