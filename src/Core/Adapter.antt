-- ===== src/Core/Adapter.antt =====
-- redog-core/src/adapter.rs: the types of adapters, and the `ProxyAdapter` trait as a record of
-- its methods. What a connection yields is a parameter `Stream`, `Datagram`.
use redog.Common.{Bool, Text, codes, Option}
use redog.Core.Address.{SocketAddr}
use redog.Core.Error.{Result}
use redog.Core.Metadata.{Metadata}

pub data AdapterType : Type 0 where
  direct reject shadowsocks vmess vless trojan wire_guard hysteria2 http socks5 : AdapterType
  selector url_test fallback load_balance relay : AdapterType

unfoldable pub show_adapter_type : AdapterType → Text
show_adapter_type direct = codes "Direct"
show_adapter_type reject = codes "Reject"
show_adapter_type shadowsocks = codes "Shadowsocks"
show_adapter_type vmess = codes "VMess"
show_adapter_type vless = codes "VLESS"
show_adapter_type trojan = codes "Trojan"
show_adapter_type wire_guard = codes "WireGuard"
show_adapter_type hysteria2 = codes "Hysteria2"
show_adapter_type http = codes "Http"
show_adapter_type socks5 = codes "Socks5"
show_adapter_type selector = codes "Selector"
show_adapter_type url_test = codes "URLTest"
show_adapter_type fallback = codes "Fallback"
show_adapter_type load_balance = codes "LoadBalance"
show_adapter_type relay = codes "Relay"

-- A `dyn ProxyAdapter`: what its methods answer in the state that it is in.
pub record ProxyAdapter (Stream Datagram : Type 0) : Type 0 where
  pub name : Text
  pub adapter_type : AdapterType
  pub connect_stream : Metadata → Result Stream
  pub connect_datagram : Metadata → Result Datagram
  pub support_udp : Bool
  pub addr : Option SocketAddr
  pub alive : Bool
