-- ===== src/Listener/Proxying.antt =====
-- What the HTTP handler makes of a request, however its bytes arrive.
use redog.Common.{
  ℕ, suc, ◌<◌, Bool, true, false, Text, codes, List, [], ◌∷◌, ◌++◌, All, length, length-append,
  eq_ignore_ascii_case, split_whitespace, trim, ◌≡◌, refl, ap, ◌∙◌, arith,
}
use mathlib.Core.List.{append-nil}
use redog.Common.Utf8.{Bytes}
use redog.Core.Address.{SocketAddr}
use redog.Core.Error.{Result, ok}
use redog.Core.Metadata.{Metadata, InboundType, http, http_connect}
use redog.Listener.Headers.{
  at, Line, IsHeader, headers_then, read_line_lem, read_headers_lem, length-headers_then,
}
use redog.Listener.HostPort.{parse_host_port, extract_host_from_target}
use redog.Listener.Http.{
  http_metadata, established, written, serve_connect, serve_plain, serve_request, on_request_line,
  handle_http_connection,
}
use redog.Listener.Reader.{Socket, all_bytes, as_wire, BufReader, Run, answers, pending}
use redog.Listener.Reading.{IsFull, EndsWithin, EndsWithin-trans, EndsWithin-new}
use redog.Transport.Wire.{Wire, write_all}

-- What a request asks for, by whether its method is CONNECT.
abbrev pub asked : Bool → Text → Result (Text × ℕ)
asked true target = parse_host_port target 443
asked false target = extract_host_from_target target 80

abbrev pub inbound : Bool → InboundType
inbound true = http_connect
inbound false = http

abbrev pub reply_of : Bool → Bytes
reply_of true = established
reply_of false = []

-- The socket that is given on, where `reads` are the reads with the request: one of them has the end
-- of the request and `lost` behind it; all later reads are left.
abbrev pub GivesOn :
    SocketAddr → Socket → List Bytes → Bytes → Bool → Text → ℕ → Run Wire Metadata → Type 0
GivesOn peer_addr s reads rest is_connect host port run =
    (lost : Bytes) × (later : List Bytes) × EndsWithin reads lost later
    × (lost ++ all_bytes later ≡ rest)
    × (run
        ≡ answers
            (record {
              input = all_bytes later;
              output = s.output ++ reply_of is_connect;
              broken = false;
            })
            (ok (http_metadata peer_addr (inbound is_connect) host port)))

written_lem :
    (m : Metadata) (bytes : Bytes) (w : Wire)
    → w.broken ≡ false
    → written m (write_all bytes w)
      ≡ answers (record { input = w.input; output = w.output ++ bytes; broken = false }) (ok m)
unfolding write_all
written_lem m bytes w live = rw (live, write_all) refl

module _ (peer_addr : SocketAddr) (s : Socket) (live : s.broken ≡ false) (headers : List Bytes)
    (all_headers : All IsHeader headers) (rest : Bytes) where
  enough :
      (buffer : Bytes) (arriving : List Bytes)
      → buffer ++ all_bytes arriving ≡ headers_then headers rest
      → length headers < suc (pending (at s buffer arriving))
  enough buffer arriving e = omega (
    arith,
    length-append buffer (all_bytes arriving),
    ap length e,
    length-headers_then headers rest,
  )

  serve_connect_lem :
      (buffer : Bytes) (arriving : List Bytes) (target host : Text) (port : ℕ)
      → All IsFull arriving
      → buffer ++ all_bytes arriving ≡ headers_then headers rest
      → parse_host_port target 443 ≡ ok (host, port)
      → GivesOn peer_addr s
          (buffer ∷ arriving)
          rest
          true
          host
          port
          (serve_connect peer_addr target (at s buffer arriving))
  unfolding serve_connect
  serve_connect_lem buffer arriving target host port full e p =
      let fuel = suc (pending (at s buffer arriving)) in
      let (lost, k, g, q, l) =
        read_headers_lem headers fuel s buffer arriving rest full all_headers e
          (enough buffer arriving e) in
      (
        lost,
        k,
        l,
        q,
        rw (p, serve_connect)
            (rw (g, serve_connect)
              (written_lem (http_metadata peer_addr http_connect host port) established
                (as_wire (record s { arriving = k })) live)),
      )

  serve_plain_lem :
      (buffer : Bytes) (arriving : List Bytes) (target host : Text) (port : ℕ)
      → All IsFull arriving
      → buffer ++ all_bytes arriving ≡ headers_then headers rest
      → extract_host_from_target target 80 ≡ ok (host, port)
      → GivesOn peer_addr s
          (buffer ∷ arriving)
          rest
          false
          host
          port
          (serve_plain peer_addr target (at s buffer arriving))
  unfolding serve_plain
  serve_plain_lem buffer arriving target host port full e p =
      let fuel = suc (pending (at s buffer arriving)) in
      let (lost, k, g, q, l) =
        read_headers_lem headers fuel s buffer arriving rest full all_headers e
          (enough buffer arriving e) in
      (
        lost,
        k,
        l,
        q,
        rw (p, serve_plain) (rw (g, serve_plain) (rw live (rw (append-nil s.output) refl))),
      )

  serve_request_lem :
      (is_connect : Bool) (buffer : Bytes) (arriving : List Bytes) (method target version : Text)
      (others : List Text) (host : Text) (port : ℕ)
      → eq_ignore_ascii_case method (codes "CONNECT") ≡ is_connect
      → All IsFull arriving
      → buffer ++ all_bytes arriving ≡ headers_then headers rest
      → asked is_connect target ≡ ok (host, port)
      → GivesOn peer_addr s
          (buffer ∷ arriving)
          rest
          is_connect
          host
          port
          (serve_request peer_addr (method ∷ target ∷ version ∷ others) (at s buffer arriving))
  unfolding serve_request
  serve_request_lem true buffer arriving method target version others host port c full e p =
      rw (c, serve_request) (serve_connect_lem buffer arriving target host port full e p)
  serve_request_lem false buffer arriving method target version others host port c full e p =
      rw (c, serve_request) (serve_plain_lem buffer arriving target host port full e p)

on_request_line_lem :
    (peer_addr : SocketAddr) (r : BufReader) (text : Text) (words : List Text)
    → split_whitespace (trim text) ≡ words
    → on_request_line peer_addr (r, ok text) ≡ serve_request peer_addr words r
unfolding on_request_line
on_request_line_lem peer_addr r text words e = ap (λ (w : List Text). serve_request peer_addr w r) e

-- A request line of three words or more whose target is read, headers that are not blank, and a
-- blank line, over a live connection and however the bytes arrive: the handler answers with the
-- metadata of the target, those of a tunnel where the method is CONNECT and those of a plain
-- request otherwise. It has written the reply of success for CONNECT and nothing otherwise. The
-- connection that is given on begins behind the request: of the bytes after the blank line, those
-- that came in the same read as its end are lost, and the bytes of all later reads are left to be
-- read.
pub handle_http_connection-request :
    (peer_addr : SocketAddr) (s : Socket) (line : Bytes) (text method target version : Text)
    (others : List Text) (headers : List Bytes) (rest : Bytes) (is_connect : Bool) (host : Text)
    (port : ℕ)
    → s.broken ≡ false
    → All IsFull s.arriving
    → Line line text
    → split_whitespace (trim text) ≡ method ∷ target ∷ version ∷ others
    → All IsHeader headers
    → all_bytes s.arriving ≡ line ++ (b'\n' ∷ headers_then headers rest)
    → eq_ignore_ascii_case method (codes "CONNECT") ≡ is_connect
    → asked is_connect target ≡ ok (host, port)
    → GivesOn peer_addr s s.arriving rest is_connect host port (handle_http_connection peer_addr s)
unfolding handle_http_connection
handle_http_connection-request peer_addr s line text method target version others headers rest
      is_connect host port live full is_line words hs bytes c p =
    let (b, k, g, q, ks, first) =
      read_line_lem s [] s.arriving line (headers_then headers rest) text full is_line bytes in
    let (lost, later, l, e, r) =
      serve_request_lem peer_addr s live headers hs rest is_connect b k method target version others
        host port c ks q p in
    (
      lost,
      later,
      EndsWithin-trans s.arriving b k lost later (EndsWithin-new s.arriving b k first) l,
      e,
      ap (on_request_line peer_addr) g
          ∙ on_request_line_lem peer_addr (at s b k) text (method ∷ target ∷ version ∷ others) words
          ∙ r,
    )
