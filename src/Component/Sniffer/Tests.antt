-- ===== src/Component/Sniffer/Tests.antt =====
-- The theorems on sniffing at a hello, at a buffer that makes the scan panic, and at a request.
use redog.Common.{
  Bool, true, ◌&&◌, Text, codes, [], ◌∷◌, ◌++◌, some, All, is_whitespace, to_decimal, ◌≡◌, refl,
  arith,
}
use redog.Common.Utf8.{Bytes, utf8, utf8_char, IsScalar, is_scalar}
use redog.Component.Sniffer.Hello.{sniff_tls_sni-record_bytes}
use redog.Component.Sniffer.Message
use redog.Component.Sniffer.Message.{ClientHello, hello_bytes, record_bytes}
use redog.Component.Sniffer.Hosts
use redog.Component.Sniffer.Hosts.{
  Request, get, capital, request_text, header_name, sniff_http_host-request_text,
}
use redog.Component.Sniffer.Http.{sniff_http_host, header_value}
use redog.Component.Sniffer.Scan.{returns, panics}
use redog.Component.Sniffer.Tls.{sniff_tls_sni}
use redog.Component.Sniffer.Total.{Ends, HandshakeOverrun, sniff_tls_sni-Ends}

abbrev zeros : Bytes
zeros =
    3 ∷ 3 ∷ 0 ∷ 0 ∷ 0 ∷ 0 ∷ 0 ∷ 0 ∷ 0 ∷ 0 ∷ 0 ∷ 0 ∷ 0 ∷ 0 ∷ 0 ∷ 0 ∷ 0 ∷ 0 ∷ 0 ∷ 0 ∷ 0 ∷ 0 ∷ 0 ∷ 0
    ∷ 0 ∷ 0 ∷ 0 ∷ 0 ∷ 0 ∷ 0 ∷ 0 ∷ 0 ∷ 0 ∷ 0 ∷ []

abbrev hello : ClientHello
hello = record {
  version_random = zeros;
  session_id = 7 ∷ [];
  ciphers = 0x13 ∷ 1 ∷ [];
  compression = 0 ∷ [];
  before = (0x17, []) ∷ (0x2b, 2 ∷ 3 ∷ 4 ∷ []) ∷ [];
  host = codes "a.b";
  after = 0 ∷ 0x15 ∷ 0 ∷ 0 ∷ [];
}

hello-Fits : Message.Fits hello
unfolding utf8 utf8_char
hello-Fits = record {
  head = refl;
  session = omega arith;
  suites = omega arith;
  methods = omega arith;
  whole = omega arith;
  others = ((λ e. omega arith), ((λ e. omega arith), tt));
  scalars = (refl, (refl, (refl, tt)));
}

sniff_tls_sni-record_bytes_example :
    sniff_tls_sni (record_bytes hello ++ (0x17 ∷ [])) ≡ returns (some (codes "a.b"))
sniff_tls_sni-record_bytes_example = sniff_tls_sni-record_bytes hello (0x17 ∷ []) hello-Fits

-- A hello whose only extension has the type 0 and the length 9, and no payload.
abbrev long_sni : Bytes
long_sni =
    0x16
    ∷ 3
    ∷ 1
    ∷ 0
    ∷ 51
    ∷ 1
    ∷ 0
    ∷ 0
    ∷ 47
    ∷ (zeros ++ (0 ∷ 0 ∷ 2 ∷ 0x13 ∷ 1 ∷ 1 ∷ 0 ∷ 0 ∷ 4 ∷ 0 ∷ 0 ∷ 0 ∷ 9 ∷ []))

long_sni-panics : sniff_tls_sni long_sni ≡ panics
unfolding sniff_tls_sni
long_sni-panics = refl

sniff_tls_sni-Ends_example : Ends (HandshakeOverrun long_sni) (sniff_tls_sni long_sni)
sniff_tls_sni-Ends_example = sniff_tls_sni-Ends long_sni

abbrev request : Request
request = record {
  method = get;
  target = codes "/ HTTP/1.1";
  before = codes "Accept: a" ∷ [];
  spelling = capital;
  host = codes "a.b";
  port = some 8080;
  rest = codes "";
}

abbrev all_scalar : Text → Bool
all_scalar [] = true
all_scalar (c ∷ s) = is_scalar c && all_scalar s

scalars_of : (s : Text) → all_scalar s ≡ true → All IsScalar s
scalars_of [] h = tt
scalars_of (c ∷ s) h =
    let (a, b) : IsScalar c × (all_scalar s ≡ true) = ground arith in (a, scalars_of s b)

request-Fits : Hosts.Fits request
unfolding header_value is_whitespace to_decimal
request-Fits = record {
  target_line = (omega arith, omega arith);
  others = (((omega arith, omega arith), refl), tt);
  host_line_is = (omega arith, omega arith);
  trimmed = (refl, refl);
  port_is = omega arith;
  scalars = scalars_of (request_text request) refl;
}

sniff_http_host-request_text_example :
    sniff_http_host (utf8 (request_text request)) ≡ some (codes "a.b")
sniff_http_host-request_text_example = sniff_http_host-request_text request request-Fits
