-- ===== src/Listener/Tests.antt =====
-- The listeners' theorems at a target and at a client's message.
use redog.Common.{
  true, ◌==◌, if◌then◌else◌, is_whitespace, trim, split_whitespace, eq_ignore_ascii_case, Text,
  codes, [], ◌∷◌, ◌++◌, some, false, ◌≡◌, refl, arith,
}
use redog.Common.Utf8.{utf8, utf8_char, from_utf8}
use redog.Core.Address.{IpAddr, SocketAddr, v4}
use redog.Core.Error.{Result, ok}
use redog.Core.Metadata.{Metadata}
use redog.Listener.Both.{ran, handle_mixed_connection_lem}
use redog.Listener.Headers.{IsHeader, Line}
use redog.Listener.Http.{handle_http_connection}
use redog.Listener.Mixed.{handle_mixed_connection, peek_byte}
use redog.Listener.Proxying.{GivesOn, handle_http_connection-request}
use redog.Listener.Reader.{Socket, as_wire}
use redog.Listener.HostPort.{parse_host_port, extract_host_from_target}
use redog.Listener.Requests.{Served, handle_socks_connection-client_message}
use redog.Listener.Socks.{handle_socks_connection}
use redog.Listener.Targets
use redog.Listener.Targets.{
  Authority, named, Target, http_url, authority, written_target,
  extract_host_from_target-written_target,
}
use redog.Transport.Socks5.{Address, connect, domain, reply}
use redog.Transport.Socks5.RoundTrip
use redog.Transport.Socks5.RoundTrip.{client_message}
use redog.Transport.Wire.{Wire}

-- "http://a.b:8080/x"
abbrev url : Target
url = http_url (named (codes "a.b") (some 8080)) (some (codes "x"))

url-Fits : Targets.Fits (authority url)
url-Fits = ((λ e. ground arith), omega arith, omega arith, omega arith, omega arith)

extract_host_from_target-written_target_example :
    extract_host_from_target (written_target url) 80 ≡ ok (codes "a.b", 8080)
extract_host_from_target-written_target_example =
    extract_host_from_target-written_target url 80 url-Fits

abbrev site : Address
site = domain (codes "a.test") 443

site-Fits : RoundTrip.Fits site
unfolding utf8 utf8_char
site-Fits = ((refl, (refl, (refl, (refl, (refl, (refl, tt)))))), omega arith, omega arith)

abbrev client : Wire
client = record {
  input = client_message (0 ∷ []) connect site ++ (22 ∷ []);
  output = [];
  broken = false;
}

abbrev show_ip : IpAddr → Text
show_ip _ = codes "ip"

abbrev peer : SocketAddr
peer = record { ip = v4 2130706433; port = 5000 }

handle_socks_connection-client_message_example :
    (r : Result Metadata) × (handle_socks_connection show_ip peer client
      ≡ (record client { input = 22 ∷ []; output = (5 ∷ 0 ∷ []) ++ reply }, r))
    × Served show_ip peer connect site r
handle_socks_connection-client_message_example =
    handle_socks_connection-client_message show_ip peer (0 ∷ []) connect site (22 ∷ []) client
      (omega arith) site-Fits refl refl

-- A request that arrives in two reads, the second with the first byte of the tunnel.
abbrev asking : Socket
asking = record {
  arriving = codes "CONNECT a.b:8443 HTT" ∷ codes "P/1.1\r\nA: b\r\n\r\n!" ∷ codes "?" ∷ [];
  output = [];
  broken = false;
}

asking-Line : Line (codes "CONNECT a.b:8443 HTTP/1.1\r") (codes "CONNECT a.b:8443 HTTP/1.1\r\n")
unfolding from_utf8
asking-Line = (omega arith, refl)

asking-words :
    split_whitespace (trim (codes "CONNECT a.b:8443 HTTP/1.1\r\n"))
    ≡ codes "CONNECT" ∷ codes "a.b:8443" ∷ codes "HTTP/1.1" ∷ []
unfolding split_whitespace trim is_whitespace
asking-words = refl

asking-IsHeader : IsHeader (codes "A: b\r")
unfolding from_utf8 trim is_whitespace
asking-IsHeader = (codes "A: b\r\n", b'A', codes ": b", (omega arith, refl), refl)

asking-target : parse_host_port (codes "a.b:8443") 443 ≡ ok (codes "a.b", 8443)
unfolding parse_host_port
asking-target = refl

handle_http_connection-request_example :
    GivesOn peer asking asking.arriving
      (codes "!?")
      true
      (codes "a.b")
      8443
      (handle_http_connection peer asking)
unfolding eq_ignore_ascii_case
handle_http_connection-request_example =
    handle_http_connection-request peer asking (codes "CONNECT a.b:8443 HTTP/1.1\r")
      (codes "CONNECT a.b:8443 HTTP/1.1\r\n") (codes "CONNECT") (codes "a.b:8443")
      (codes "HTTP/1.1") [] (codes "A: b\r" ∷ []) (codes "!?") true (codes "a.b") 8443 refl
      (omega arith, (omega arith, (omega arith, tt))) asking-Line asking-words (asking-IsHeader, tt)
      refl refl asking-target

abbrev show_nothing : IpAddr → Text
show_nothing _ = []

handle_mixed_connection_lem_example : handle_mixed_connection show_nothing peer asking ≡ (
    if peek_byte asking == 5
    then ran (handle_socks_connection show_nothing peer (as_wire asking))
    else handle_http_connection peer asking)
handle_mixed_connection_lem_example = handle_mixed_connection_lem show_nothing peer asking
