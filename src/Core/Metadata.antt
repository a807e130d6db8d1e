-- ===== src/Core/Metadata.antt =====
-- redog-core/src/metadata.rs: what is known of a connection. How an address or a port is printed
-- (`to_string` of `std`) is a parameter of the functions that print one.
use redog.Common.{ℕ, Text, codes, [], ◌++◌, Option, none, some}
use redog.Core.Address.{IpAddr, v4, SocketAddr}

pub data Network : Type 0 where
  tcp udp : Network

unfoldable pub show_network : Network → Text
show_network tcp = codes "tcp"
show_network udp = codes "udp"

pub data InboundType : Type 0 where
  http http_connect socks4 socks5 redir tproxy tun mixed inner : InboundType

unfoldable pub show_inbound_type : InboundType → Text
show_inbound_type http = codes "HTTP"
show_inbound_type http_connect = codes "HTTP Connect"
show_inbound_type socks4 = codes "SOCKS4"
show_inbound_type socks5 = codes "SOCKS5"
show_inbound_type redir = codes "Redir"
show_inbound_type tproxy = codes "TProxy"
show_inbound_type tun = codes "TUN"
show_inbound_type mixed = codes "Mixed"
show_inbound_type inner = codes "Inner"

pub data DnsMode : Type 0 where
  normal fake_ip redir_host : DnsMode

pub record Metadata : Type 0 where
  pub network : Network
  pub inbound_type : InboundType
  pub src_addr : SocketAddr
  pub dst_ip : Option IpAddr
  pub dst_port : ℕ
  pub host : Option Text
  pub dns_mode : DnsMode
  pub process_path : Option Text
  pub process_name : Option Text
  pub inbound_addr : Option SocketAddr
  pub inbound_name : Option Text
  pub dscp : ℕ

-- `Metadata::new`
unfoldable pub new_metadata : Network → InboundType → Metadata
new_metadata network inbound_type = record {
  network = network;
  inbound_type = inbound_type;
  src_addr = record { ip = v4 0; port = 0 };
  dst_ip = none;
  dst_port = 0;
  host = none;
  dns_mode = normal;
  process_path = none;
  process_name = none;
  inbound_addr = none;
  inbound_name = none;
  dscp = 0;
}

-- `Metadata::remote_addr`
unfoldable pub remote_addr : Metadata → Option SocketAddr
remote_addr m = elim m.dst_ip [
  | none ↦ none
  | some ip ↦ some (record { ip = ip; port = m.dst_port })
]

module _ (show_ip : IpAddr → Text) (show_port : ℕ → Text) where
  -- `Metadata::remote_host`: the domain first, then the address
  unfoldable pub remote_host : Metadata → Text
  remote_host m = elim m.host [
    | some host ↦ host
    | none ↦ elim m.dst_ip [ some ip ↦ show_ip ip | none ↦ [] ]
  ]

  -- `Metadata::destination`
  unfoldable pub destination : Metadata → Text
  destination m = elim (remote_host m) [
    | [] ↦ codes ":" ++ show_port m.dst_port
    | host ↦ host ++ (codes ":" ++ show_port m.dst_port)
  ]

  -- `impl Display for Metadata`, given how a socket address is printed
  unfoldable pub show_metadata : (SocketAddr → Text) → Metadata → Text
  show_metadata show_addr m =
      show_inbound_type m.inbound_type
      ++ (codes " "
          ++ (show_network m.network
              ++ (codes " " ++ (show_addr m.src_addr ++ (codes " -> " ++ destination m)))))
