-- ===== src/Listener/Both.antt =====
-- What the mixed listener does, by what the other two do.
use redog.Common.{
  ◌==◌, Bool-cases, Text, List, [], ◌∷◌, if◌then◌else◌, inl, inr, split_whitespace, trim, ◌≡◌, refl,
}
use redog.Core.Address.{IpAddr, SocketAddr}
use redog.Core.Error.{Result, ok, err}
use redog.Core.Metadata.{Metadata}
use redog.Listener.Http.{
  serve_connect, serve_plain, serve_request, on_request_line, handle_http_connection,
}
use redog.Listener.Mixed.{
  peek_byte, socks_answer, handle_socks5, connect_request, plain_request, dispatch,
  with_request_line, handle_http, handle_mixed_connection,
}
use redog.Listener.Reader.{Socket, as_wire, BufReader, new_reader, read_line, Run, answers}
use redog.Listener.Socks.{handle_socks_connection, answer}
use redog.Transport.Socks5.{Command, connect, bind, udp_associate, Address, server_handshake}
use redog.Transport.Wire.{Wire, then_result}

-- The answer of a handler without a loop.
abbrev pub ran : Wire × Result Metadata → Run Wire Metadata
ran (w, r) = answers w r

same_answer :
    (show_ip : IpAddr → Text) (peer_addr : SocketAddr) (p : Wire × Result (Command × Address))
    → socks_answer show_ip peer_addr p ≡ ran (then_result (answer show_ip peer_addr) p)
same_answer show_ip peer_addr (w, err e) = refl
same_answer show_ip peer_addr (w, ok (connect, a)) = refl
same_answer show_ip peer_addr (w, ok (bind, a)) = refl
same_answer show_ip peer_addr (w, ok (udp_associate, a)) = refl

same_socks :
    (show_ip : IpAddr → Text) (peer_addr : SocketAddr) (s : Socket)
    → handle_socks5 show_ip peer_addr s
      ≡ ran (handle_socks_connection show_ip peer_addr (as_wire s))
unfolding handle_socks5 handle_socks_connection
same_socks show_ip peer_addr s = same_answer show_ip peer_addr (server_handshake (as_wire s))

same_dispatch :
    (peer_addr : SocketAddr) (words : List Text) (r : BufReader)
    → dispatch peer_addr words r ≡ serve_request peer_addr words r
unfolding dispatch serve_request connect_request plain_request serve_connect serve_plain
same_dispatch peer_addr [] r = refl
same_dispatch peer_addr (a ∷ []) r = refl
same_dispatch peer_addr (a ∷ b ∷ []) r = refl
same_dispatch peer_addr (method ∷ target ∷ version ∷ others) r = refl

same_request_line :
    (peer_addr : SocketAddr) (p : BufReader × Result Text)
    → with_request_line peer_addr p ≡ on_request_line peer_addr p
unfolding with_request_line on_request_line
same_request_line peer_addr (r, err e) = refl
same_request_line peer_addr (r, ok line) = same_dispatch peer_addr (split_whitespace (trim line)) r

same_http :
    (peer_addr : SocketAddr) (s : Socket)
    → handle_http peer_addr s ≡ handle_http_connection peer_addr s
unfolding handle_http handle_http_connection
same_http peer_addr s = same_request_line peer_addr (read_line (new_reader s))

-- On every connection the mixed listener does what one of the two others does: the SOCKS5 listener
-- where the first byte is 5, and the HTTP listener otherwise, also where the peer sends nothing.
pub handle_mixed_connection_lem :
    (show_ip : IpAddr → Text) (peer_addr : SocketAddr) (s : Socket)
    → handle_mixed_connection show_ip peer_addr s ≡ (
        if peek_byte s == 5
        then ran (handle_socks_connection show_ip peer_addr (as_wire s))
        else handle_http_connection peer_addr s)
unfolding handle_mixed_connection
handle_mixed_connection_lem show_ip peer_addr s = elim (Bool-cases (peek_byte s == 5)) [
  | inl five ↦ rw (five, handle_mixed_connection) (same_socks show_ip peer_addr s)
  | inr other ↦ rw (other, handle_mixed_connection) (same_http peer_addr s)
]
