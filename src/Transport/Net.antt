-- ===== src/Transport/Net.antt =====
-- redog-common/src/net.rs and redog-tunnel/src/relay.rs: the making of a connection, and the relay
-- of two, over tokio's sockets and its `copy_bidirectional`, which are parameters.
use redog.Common.{ℕ, Option, none, some}
use redog.Core.Address.{IpAddr, v4, v6, SocketAddr}
use redog.Core.Error.{Result, ◌>>=◌}

-- A `Socket` is a `TcpSocket`, a `Stream` a `TcpStream`.
pub record Tcp (Socket Stream : Type 0) : Type 0 where
  pub connect : SocketAddr → Result Stream
  pub set_nodelay : Stream → Result Stream
  pub new_v4 : Result Socket
  pub new_v6 : Result Socket
  pub bind : SocketAddr → Socket → Result Socket
  pub connect_from : Socket → SocketAddr → Result Stream

module _ {Socket Stream : Type 0} (tcp : Tcp Socket Stream) where
  unfoldable pub tcp_connect : SocketAddr → Result Stream
  tcp_connect addr = tcp.connect addr >>= tcp.set_nodelay

  abbrev socket_for : IpAddr → Result Socket
  socket_for (v4 _) = tcp.new_v4
  socket_for (v6 _) = tcp.new_v6

  unfoldable pub tcp_connect_with_bind : SocketAddr → Option SocketAddr → Result Stream
  unfolding tcp_connect
  tcp_connect_with_bind addr none = tcp_connect addr
  tcp_connect_with_bind addr (some bind) = do
    socket ← socket_for addr.ip
    bound ← tcp.bind bind socket
    stream ← tcp.connect_from bound addr
    tcp.set_nodelay stream

-- The bytes moved each way.
unfoldable pub relay_tcp :
    {Stream : Type 0} → (Stream → Stream → Result (ℕ × ℕ)) → Stream → Stream → Result (ℕ × ℕ)
relay_tcp copy_bidirectional left right = copy_bidirectional left right
