-- ===== src/Adapter/Outbound.antt =====
-- redog-adapter/src/outbound/direct.rs and reject.rs, over the sockets of `tokio`, which are a
-- parameter.
use redog.Common.{ℕ, true, false, Text, codes, List, [], ◌∷◌, ◌++◌, none, some}
use redog.Core.Adapter.{AdapterType, ProxyAdapter}
use redog.Core.Address.{SocketAddr}
use redog.Core.Error.{connection_closed, dns_resolution, invalid_address, Result, ok, err, ◌>>=◌}
use redog.Core.Metadata.{Metadata, remote_addr}

-- What the adapters ask of the network. A `Stream` here is a `TrackedStream` with its chain.
pub record Sockets (Stream Datagram : Type 0) : Type 0 where
  pub tcp_connect : SocketAddr → Result Stream
  pub set_nodelay : Stream → Result Stream
  pub udp_bind : Result Datagram
  pub udp_connect : Datagram → SocketAddr → Result Datagram
  -- `lookup_host`, on "host:port"
  pub lookup_host : Text → Result (List SocketAddr)
  -- how a port is printed
  pub show_port : ℕ → Text

-- redog-core/src/conn.rs: a stream with the names of the adapters that it went through.
pub record TrackedStream (Stream : Type 0) : Type 0 where
  pub stream : Stream
  pub chains : List Text

unfoldable pub new_tracked : {Stream : Type 0} → Stream → TrackedStream Stream
new_tracked s = record { stream = s; chains = [] }

unfoldable pub with_chain : {Stream : Type 0} → Stream → Text → TrackedStream Stream
with_chain s chain = record { stream = s; chains = chain ∷ [] }

unfoldable pub append_chain : {Stream : Type 0} → TrackedStream Stream → Text → TrackedStream Stream
append_chain t name = record t { chains = t.chains ++ (name ∷ []) }

module _ {Stream Datagram : Type 0} (net : Sockets Stream Datagram) where
  -- The first of the addresses that were found.
  abbrev first_addr : Text → List SocketAddr → Result SocketAddr
  first_addr host [] = err (dns_resolution (codes "no addresses for " ++ host))
  first_addr host (a ∷ _) = ok a

  unfoldable pub resolve_addr : Metadata → Result SocketAddr
  unfolding remote_addr
  resolve_addr m = elim (remote_addr m) [
    | some addr ↦ ok addr
    | none ↦ elim m.host [
      | none ↦ err (invalid_address (codes "no host or IP in metadata"))
      | some host ↦
          net.lookup_host (host ++ (codes ":" ++ net.show_port m.dst_port)) >>= first_addr host
    ]
  ]

  unfoldable pub direct_connect_stream : Metadata → Result (TrackedStream Stream)
  unfolding resolve_addr with_chain
  direct_connect_stream m = do
    addr ← resolve_addr m
    stream ← net.tcp_connect addr
    tuned ← net.set_nodelay stream
    ok (with_chain tuned (codes "DIRECT"))

  unfoldable pub direct_connect_datagram : Metadata → Result Datagram
  unfolding remote_addr
  direct_connect_datagram m = do
    socket ← net.udp_bind
    elim (remote_addr m) [ some addr ↦ net.udp_connect socket addr | none ↦ ok socket ]

  -- `impl ProxyAdapter for Direct`
  unfoldable pub direct : ProxyAdapter (TrackedStream Stream) Datagram
  direct = record {
    name = codes "DIRECT";
    adapter_type = AdapterType.direct;
    connect_stream = direct_connect_stream;
    connect_datagram = direct_connect_datagram;
    support_udp = true;
    addr = none;
    alive = true;
  }

-- `impl ProxyAdapter for Reject`
unfoldable pub reject : {Stream Datagram : Type 0} → ProxyAdapter Stream Datagram
reject = record {
  name = codes "REJECT";
  adapter_type = AdapterType.reject;
  connect_stream = λ _. err connection_closed;
  connect_datagram = λ _. err connection_closed;
  support_udp = false;
  addr = none;
  alive = true;
}
