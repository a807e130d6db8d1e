-- ===== src/Listener/Mixed.antt =====
-- redog-listener/src/mixed/mod.rs: `handle_mixed_connection`, with the handler of SOCKS5 and that
-- of HTTP that it calls.
use redog.Common.{
  ℕ, suc, Text, codes, List, ◌∷◌, ◌++◌, ◌==◌, if◌then◌else◌, eq_ignore_ascii_case, split_whitespace,
  trim,
}
use redog.Core.Address.{IpAddr, SocketAddr}
use redog.Core.Error.{protocol, Result, ok, err}
use redog.Core.Metadata.{Metadata, http, http_connect}
use redog.Listener.HostPort.{parse_host_port, extract_host_from_target}
use redog.Listener.Http.{http_metadata, established, after_headers, written}
use redog.Listener.Reader.{
  Socket, as_wire, BufReader, new_reader, into_inner, read_line, Run, answers, read_headers,
  pending,
}
use redog.Listener.Socks.{socks_metadata, debug_command}
use redog.Transport.Socks5.{Command, connect, Address, server_handshake}
use redog.Transport.Wire.{Wire, write_all}

-- The first byte, which `peek` leaves in place; at the end of file the buffer keeps its zero.
unfoldable pub peek_byte : Socket → ℕ
peek_byte s = elim s.arriving [ (b ∷ _) ∷ _ ↦ b | _ ↦ 0 ]

-- What the handler makes of the handshake.
abbrev pub socks_answer :
    (IpAddr → Text) → SocketAddr → Wire × Result (Command × Address) → Run Wire Metadata
socks_answer show_ip peer_addr (w, err e) = answers w (err e)
socks_answer show_ip peer_addr (w, ok (connect, addr)) =
    answers w (ok (socks_metadata show_ip peer_addr addr))
socks_answer show_ip peer_addr (w, ok (cmd, addr)) =
    answers w (err (protocol (codes "unsupported SOCKS5 command: " ++ debug_command cmd)))

unfoldable pub handle_socks5 : (IpAddr → Text) → SocketAddr → Socket → Run Wire Metadata
unfolding server_handshake socks_metadata
handle_socks5 show_ip peer_addr s = socks_answer show_ip peer_addr (server_handshake (as_wire s))

unfoldable pub connect_request : SocketAddr → Text → BufReader → Run Wire Metadata
unfolding parse_host_port read_headers write_all http_metadata
connect_request peer_addr target r = elim (parse_host_port target 443) [
  | err e ↦ answers (as_wire (into_inner r)) (err e)
  | ok (host, port) ↦
      after_headers
        (λ after.
          written (http_metadata peer_addr http_connect host port)
            (write_all established (as_wire (into_inner after))))
        (read_headers (suc (pending r)) r)
]

unfoldable pub plain_request : SocketAddr → Text → BufReader → Run Wire Metadata
unfolding extract_host_from_target read_headers http_metadata
plain_request peer_addr target r = elim (extract_host_from_target target 80) [
  | err e ↦ answers (as_wire (into_inner r)) (err e)
  | ok (host, port) ↦
      after_headers
        (λ after.
          answers (as_wire (into_inner after)) (ok (http_metadata peer_addr http host port)))
        (read_headers (suc (pending r)) r)
]

-- The words of the request line.
unfoldable pub dispatch : SocketAddr → List Text → BufReader → Run Wire Metadata
unfolding connect_request plain_request eq_ignore_ascii_case
dispatch peer_addr (method ∷ target ∷ version ∷ _) r =
    if eq_ignore_ascii_case method (codes "CONNECT")
    then connect_request peer_addr target r
    else plain_request peer_addr target r
dispatch peer_addr _ r =
    answers (as_wire (into_inner r)) (err (protocol (codes "invalid HTTP request")))

unfoldable pub with_request_line : SocketAddr → BufReader × Result Text → Run Wire Metadata
unfolding dispatch split_whitespace trim
with_request_line peer_addr (r, err e) = answers (as_wire (into_inner r)) (err e)
with_request_line peer_addr (r, ok request_line) =
    dispatch peer_addr (split_whitespace (trim request_line)) r

unfoldable pub handle_http : SocketAddr → Socket → Run Wire Metadata
unfolding read_line with_request_line
handle_http peer_addr s = with_request_line peer_addr (read_line (new_reader s))

unfoldable pub handle_mixed_connection : (IpAddr → Text) → SocketAddr → Socket → Run Wire Metadata
unfolding peek_byte handle_socks5 handle_http
handle_mixed_connection show_ip peer_addr s =
    if peek_byte s == 0x05 then handle_socks5 show_ip peer_addr s else handle_http peer_addr s
