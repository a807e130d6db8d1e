-- ===== src/Listener/Http.antt =====
-- redog-listener/src/http/mod.rs: `handle_http_connection`. The text `headers`, which the code
-- gathers for a plain request and does not use, is left out.
use redog.Common.{
  ℕ, suc, Text, codes, List, ◌∷◌, some, if◌then◌else◌, eq_ignore_ascii_case, split_whitespace, trim,
}
use redog.Common.Utf8.{Bytes}
use redog.Core.Address.{SocketAddr}
use redog.Core.Error.{protocol, Result, ok, err}
use redog.Core.Metadata.{Metadata, new_metadata, InboundType, tcp, http, http_connect}
use redog.Listener.HostPort.{parse_host_port, extract_host_from_target}
use redog.Listener.Reader.{
  Socket, as_wire, BufReader, new_reader, into_inner, read_line, Run, answers, out_of_fuel,
  read_headers, pending,
}
use redog.Transport.Wire.{Wire, write_all}

unfoldable pub http_metadata : SocketAddr → InboundType → Text → ℕ → Metadata
unfolding new_metadata
http_metadata peer_addr inbound host port = record (new_metadata tcp inbound) {
  src_addr = peer_addr;
  host = some host;
  dst_port = port;
}

-- "HTTP/1.1 200 Connection Established\r\n\r\n"
abbrev pub established : Bytes
established = codes "HTTP/1.1 200 Connection Established\r\n\r\n"

-- What follows the loop over the headers; an error ends the handler.
abbrev pub after_headers :
    (BufReader → Run Wire Metadata) → Run BufReader (Unit {0}) → Run Wire Metadata
after_headers next (answers r (ok _)) = next r
after_headers next (answers r (err e)) = answers (as_wire (into_inner r)) (err e)
after_headers next out_of_fuel = out_of_fuel

abbrev pub written : Metadata → Wire × Result (Unit {0}) → Run Wire Metadata
written metadata (w, ok _) = answers w (ok metadata)
written metadata (w, err e) = answers w (err e)

unfoldable pub serve_connect : SocketAddr → Text → BufReader → Run Wire Metadata
unfolding parse_host_port read_headers write_all http_metadata
serve_connect peer_addr target r = elim (parse_host_port target 443) [
  | err e ↦ answers (as_wire (into_inner r)) (err e)
  | ok (host, port) ↦
      after_headers
        (λ after.
          written (http_metadata peer_addr http_connect host port)
            (write_all established (as_wire (into_inner after))))
        (read_headers (suc (pending r)) r)
]

unfoldable pub serve_plain : SocketAddr → Text → BufReader → Run Wire Metadata
unfolding extract_host_from_target read_headers http_metadata
serve_plain peer_addr target r = elim (extract_host_from_target target 80) [
  | err e ↦ answers (as_wire (into_inner r)) (err e)
  | ok (host, port) ↦
      after_headers
        (λ after.
          answers (as_wire (into_inner after)) (ok (http_metadata peer_addr http host port)))
        (read_headers (suc (pending r)) r)
]

-- The words of the request line.
unfoldable pub serve_request : SocketAddr → List Text → BufReader → Run Wire Metadata
unfolding serve_connect serve_plain eq_ignore_ascii_case
serve_request peer_addr (method ∷ target ∷ version ∷ _) r =
    if eq_ignore_ascii_case method (codes "CONNECT")
    then serve_connect peer_addr target r
    else serve_plain peer_addr target r
serve_request peer_addr _ r =
    answers (as_wire (into_inner r)) (err (protocol (codes "invalid HTTP request")))

-- After the request line.
unfoldable pub on_request_line : SocketAddr → BufReader × Result Text → Run Wire Metadata
unfolding serve_request split_whitespace trim
on_request_line peer_addr (r, err e) = answers (as_wire (into_inner r)) (err e)
on_request_line peer_addr (r, ok request_line) =
    serve_request peer_addr (split_whitespace (trim request_line)) r

unfoldable pub handle_http_connection : SocketAddr → Socket → Run Wire Metadata
unfolding read_line on_request_line
handle_http_connection peer_addr s = on_request_line peer_addr (read_line (new_reader s))
