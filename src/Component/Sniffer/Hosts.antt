-- ===== src/Component/Sniffer/Hosts.antt =====
-- What is read from an HTTP request with a Host header.
use redog.Common.{
  OneLine, lines, ℕ, ◌≤◌, true, false, Text, codes, List, [], ◌∷◌, ◌++◌, Option, none, some, ◌==◌,
  is_prefix, All, Without, Without-append, Without-to_decimal, strip_prefix, rsplit_once-none,
  rsplit_once_append, to_decimal, to_decimal-IsDigit, parse_uint-to_decimal, IsTrimmed,
  trim_of_IsTrimmed, IsTrimmed-append, digits-IsTrimmed, is_whitespace, ◌≡◌, refl, ap, ◌∙◌, arith,
}
use mathlib.Core.List.{append_assoc, append-nil}
use redog.Common.Utf8.{utf8, IsScalar, from_utf8-utf8}
use redog.Component.Sniffer.Http.{
  looks_like_http, header_value, without_port, first_host, sniff_http_host,
}

abbrev pub ended : Text → Text → Text
ended l rest = l ++ (b'\r' ∷ b'\n' ∷ rest)

lines-ended : (l rest : Text) → OneLine l → lines (ended l rest) ≡ l ∷ lines rest
unfolding lines is_prefix
lines-ended [] rest o = refl
lines-ended (c ∷ l) rest ((n, ns), (r, rs)) =
    let a : (c == b'\n') ≡ false = ground (arith, n) in
    let b : (c == b'\r') ≡ false = ground (arith, r) in
    rw (a, b) (rw (lines-ended l rest (ns, rs)) refl)

pub data Method : Type 0 where
  get post put delete head options connect patch : Method

abbrev pub method_text : Method → Text
method_text get = codes "GET "
method_text post = codes "POST "
method_text put = codes "PUT "
method_text delete = codes "DELETE "
method_text head = codes "HEAD "
method_text options = codes "OPTIONS "
method_text connect = codes "CONNECT "
method_text patch = codes "PATCH "

-- The two spellings of the header's name that are known.
pub data Spelling : Type 0 where
  capital small : Spelling

abbrev pub header_name : Spelling → Text
header_name capital = codes "Host: "
header_name small = codes "host: "

-- A request: the start line after the method, the headers before the host's, the host and the
-- port, and all that follows the line.
pub record Request : Type 0 where
  pub method : Method
  pub target : Text
  pub before : List Text
  pub spelling : Spelling
  pub host : Text
  pub port : Option ℕ
  pub rest : Text

abbrev pub port_text : Option ℕ → Text
port_text none = []
port_text (some p) = b':' ∷ to_decimal p

abbrev pub headers_text : List Text → Text → Text
headers_text [] rest = rest
headers_text (l ∷ ls) rest = ended l (headers_text ls rest)

abbrev pub host_line : Request → Text
host_line r = header_name r.spelling ++ (r.host ++ port_text r.port)

abbrev pub request_text : Request → Text
request_text r =
    ended (method_text r.method ++ r.target) (headers_text r.before (ended (host_line r) r.rest))

abbrev pub PortFits : Text → Option ℕ → Type 0
PortFits host none = Without b':' host
PortFits host (some p) = p ≤ 65535

-- A line before the host's that is not the host's itself.
abbrev pub IsOther : Text → Type 0
IsOther l = OneLine l × (header_value l ≡ none)

pub record Fits (r : Request) : Type 0 where
  pub target_line : OneLine r.target
  pub others : All IsOther r.before
  pub host_line_is : OneLine r.host
  pub trimmed : IsTrimmed r.host
  pub port_is : PortFits r.host r.port
  pub scalars : All IsScalar (request_text r)

without_port_lem :
    (host : Text) (p : Option ℕ) → PortFits host p → without_port (host ++ port_text p) ≡ host
unfolding without_port
without_port_lem host none h =
    rw (append-nil host) (rw (rsplit_once-none b':' host h, without_port) refl)
without_port_lem host (some p) h =
    let w : Without b':' (to_decimal p) = Without-to_decimal b':' p (λ x y. omega arith) in
    rw (rsplit_once_append b':' host (to_decimal p) w, without_port)
      (rw (parse_uint-to_decimal 65535 p h, without_port) refl)

trimmed_lem : (host : Text) (p : Option ℕ) → IsTrimmed host → IsTrimmed (host ++ port_text p)
unfolding is_whitespace
trimmed_lem host none t = rw (append-nil host) t
trimmed_lem host (some p) t = IsTrimmed-append host (port_text (some p)) t (
    IsTrimmed-append (b':' ∷ []) (to_decimal p) (refl, refl)
      (digits-IsTrimmed (to_decimal p) (to_decimal-IsDigit p)))

header_value_lem : (s : Spelling) (v : Text) → header_value (header_name s ++ v) ≡ some v
unfolding header_value strip_prefix
header_value_lem capital v = refl
header_value_lem small v = refl

method_lem : (m : Method) (s : Text) → looks_like_http (method_text m ++ s) ≡ true
unfolding looks_like_http is_prefix
method_lem get s = refl
method_lem post s = refl
method_lem put s = refl
method_lem delete s = refl
method_lem head s = refl
method_lem options s = refl
method_lem connect s = refl
method_lem patch s = refl

start_lem : (m : Method) (s : Text) → header_value (method_text m ++ s) ≡ none
unfolding header_value strip_prefix
start_lem get s = refl
start_lem post s = refl
start_lem put s = refl
start_lem delete s = refl
start_lem head s = refl
start_lem options s = refl
start_lem connect s = refl
start_lem patch s = refl

first_host-other :
    (l : Text) (ls : List Text) → header_value l ≡ none → first_host (l ∷ ls) ≡ first_host ls
unfolding first_host
first_host-other l ls e = rw (e, first_host) refl

first_host-headers :
    (ls : List Text) (rest : Text)
    → All IsOther ls
    → first_host (lines (headers_text ls rest)) ≡ first_host (lines rest)
first_host-headers [] rest o = refl
first_host-headers (l ∷ ls) rest ((one, other), os) =
    rw (lines-ended l (headers_text ls rest) one)
      (first_host-other l (lines (headers_text ls rest)) other ∙ first_host-headers ls rest os)

first_host-host :
    (r : Request) (ls : List Text) → Fits r → first_host (host_line r ∷ ls) ≡ some r.host
unfolding first_host
first_host-host r ls f =
    let value = r.host ++ port_text r.port in
    rw (header_value_lem r.spelling value, first_host)
      (rw (trim_of_IsTrimmed value (trimmed_lem r.host r.port f.trimmed), first_host)
        (rw (without_port_lem r.host r.port f.port_is) refl))

OneLine-append : (a b : Text) → OneLine a → OneLine b → OneLine (a ++ b)
OneLine-append a b (x, y) (z, t) = (Without-append b'\n' a b x z, Without-append b'\r' a b y t)

port_text-OneLine : (p : Option ℕ) → OneLine (port_text p)
port_text-OneLine none = (tt, tt)
port_text-OneLine (some p) = (
  (λ e. ground arith, Without-to_decimal b'\n' p (λ x y. omega arith)),
  (λ e. ground arith, Without-to_decimal b'\r' p (λ x y. omega arith)),
)

header_name-OneLine : (s : Spelling) → OneLine (header_name s)
header_name-OneLine capital = (omega arith, omega arith)
header_name-OneLine small = (omega arith, omega arith)

method_text-OneLine : (m : Method) → OneLine (method_text m)
method_text-OneLine get = (omega arith, omega arith)
method_text-OneLine post = (omega arith, omega arith)
method_text-OneLine put = (omega arith, omega arith)
method_text-OneLine delete = (omega arith, omega arith)
method_text-OneLine head = (omega arith, omega arith)
method_text-OneLine options = (omega arith, omega arith)
method_text-OneLine connect = (omega arith, omega arith)
method_text-OneLine patch = (omega arith, omega arith)

host_line-OneLine : (r : Request) → Fits r → OneLine (host_line r)
host_line-OneLine r f =
    OneLine-append (header_name r.spelling) (r.host ++ port_text r.port)
      (header_name-OneLine r.spelling)
      (OneLine-append r.host (port_text r.port) f.host_line_is (port_text-OneLine r.port))

first_host-request_text : (r : Request) → Fits r → first_host (lines (request_text r)) ≡ some r.host
first_host-request_text r f =
    let start = method_text r.method ++ r.target in
    let tail = ended (host_line r) r.rest in
    let one =
      OneLine-append (method_text r.method) r.target (method_text-OneLine r.method) f.target_line in
    ap first_host (lines-ended start (headers_text r.before tail) one)
    ∙ first_host-other start (lines (headers_text r.before tail)) (start_lem r.method r.target)
    ∙ first_host-headers r.before tail f.others
    ∙ ap first_host (lines-ended (host_line r) r.rest (host_line-OneLine r f))
    ∙ first_host-host r (lines r.rest) f

looks_like_http-request_text : (r : Request) → looks_like_http (request_text r) ≡ true
looks_like_http-request_text r =
    let tail = headers_text r.before (ended (host_line r) r.rest) in
    ap looks_like_http (append_assoc (method_text r.method) r.target (b'\r' ∷ b'\n' ∷ tail))
    ∙ method_lem r.method (r.target ++ (b'\r' ∷ b'\n' ∷ tail))

-- From the bytes of a request, of any of the eight methods, the host of its Host header is read,
-- without the port if there is one. The header is in one of its two spellings, and no header
-- before it is another. The lines are ended by CR LF, the host has no blank at its ends, and has no
-- colon if no port follows it.
pub sniff_http_host-request_text :
    (r : Request) → Fits r → sniff_http_host (utf8 (request_text r)) ≡ some r.host
unfolding sniff_http_host
sniff_http_host-request_text r f =
    rw (from_utf8-utf8 (request_text r) f.scalars, sniff_http_host)
      (rw (looks_like_http-request_text r, sniff_http_host) (first_host-request_text r f))
