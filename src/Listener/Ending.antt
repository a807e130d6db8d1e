-- ===== src/Listener/Ending.antt =====
-- That the fuel of the HTTP handler is enough. The code has no timeout and no limit on the headers,
-- so this is said only of what a `Socket` can express: finitely many reads and then the end of file.
use redog.Common.{
  suc, Bool-cases, Text, codes, List, [], ◌∷◌, inl, inr, eq_ignore_ascii_case, split_whitespace,
  trim, arith,
}
use redog.Core.Address.{SocketAddr}
use redog.Core.Error.{Result, ok, err, Result-cases}
use redog.Core.Metadata.{Metadata}
use redog.Listener.Headers.{Answers, read_headers-Answers}
use redog.Listener.HostPort.{parse_host_port, extract_host_from_target}
use redog.Listener.Http.{
  after_headers, written, serve_connect, serve_plain, serve_request, on_request_line,
  handle_http_connection,
}
use redog.Listener.Reader.{
  Socket, BufReader, new_reader, read_line, Run, answers, out_of_fuel, read_headers, pending,
}
use redog.Transport.Wire.{Wire}

after_headers-Answers :
    (next : BufReader → Run Wire Metadata) (headers : Run BufReader (Unit {0}))
    → Answers headers
    → ((r : BufReader) → Answers (next r))
    → Answers (after_headers next headers)
after_headers-Answers next (answers r (ok _)) a n = n r
after_headers-Answers next (answers r (err e)) a n = tt
after_headers-Answers next out_of_fuel a n = absurd a

written-Answers : (m : Metadata) (p : Wire × Result (Unit {0})) → Answers (written m p)
written-Answers m (w, ok _) = tt
written-Answers m (w, err e) = tt

serve_connect-Answers :
    (peer_addr : SocketAddr) (target : Text) (r : BufReader)
    → Answers (serve_connect peer_addr target r)
unfolding serve_connect
serve_connect-Answers peer_addr target r = elim (Result-cases (parse_host_port target 443)) [
  | inr (e, f) ↦ rw (f, serve_connect) tt
  | inl ((host, port), f) ↦
      rw (f, serve_connect)
        (after_headers-Answers _ (read_headers (suc (pending r)) r)
          (read_headers-Answers (suc (pending r)) r (omega arith)) (λ after. written-Answers _ _))
]

serve_plain-Answers :
    (peer_addr : SocketAddr) (target : Text) (r : BufReader)
    → Answers (serve_plain peer_addr target r)
unfolding serve_plain
serve_plain-Answers peer_addr target r = elim (Result-cases (extract_host_from_target target 80)) [
  | inr (e, f) ↦ rw (f, serve_plain) tt
  | inl ((host, port), f) ↦
      rw (f, serve_plain)
        (after_headers-Answers _ (read_headers (suc (pending r)) r)
          (read_headers-Answers (suc (pending r)) r (omega arith)) (λ after. tt))
]

serve_request-Answers :
    (peer_addr : SocketAddr) (words : List Text) (r : BufReader)
    → Answers (serve_request peer_addr words r)
unfolding serve_request
serve_request-Answers peer_addr [] r = tt
serve_request-Answers peer_addr (a ∷ []) r = tt
serve_request-Answers peer_addr (a ∷ b ∷ []) r = tt
serve_request-Answers peer_addr (method ∷ target ∷ version ∷ others) r =
    elim (Bool-cases (eq_ignore_ascii_case method (codes "CONNECT"))) [
      | inl c ↦ rw (c, serve_request) (serve_connect-Answers peer_addr target r)
      | inr p ↦ rw (p, serve_request) (serve_plain-Answers peer_addr target r)
    ]

on_request_line-Answers :
    (peer_addr : SocketAddr) (p : BufReader × Result Text) → Answers (on_request_line peer_addr p)
unfolding on_request_line
on_request_line-Answers peer_addr (r, err e) = tt
on_request_line-Answers peer_addr (r, ok line) =
    serve_request-Answers peer_addr (split_whitespace (trim line)) r

-- Where the peer sends finitely many reads and then closes, the loop over the headers does not run
-- out of fuel.
handle_http_connection-Answers :
    (peer_addr : SocketAddr) (s : Socket) → Answers (handle_http_connection peer_addr s)
unfolding handle_http_connection
handle_http_connection-Answers peer_addr s =
    on_request_line-Answers peer_addr (read_line (new_reader s))
