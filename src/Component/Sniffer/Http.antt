-- ===== src/Component/Sniffer/Http.antt =====
-- redog-component/src/sniffer.rs: `sniff_http_host`, its search for the header and what it makes of
-- the value.
use redog.Common.{
  lines, Bool, not, ◌||◌, Text, codes, List, [], ◌∷◌, Option, none, some, if◌then◌else◌, is_prefix,
  strip_prefix, rsplit_once, trim, parse_uint, parsed, failed,
}
use redog.Common.Utf8.{Bytes, from_utf8}

unfoldable pub looks_like_http : Text → Bool
unfolding is_prefix
looks_like_http text =
    is_prefix (codes "GET ") text
    || is_prefix (codes "POST ") text
    || is_prefix (codes "PUT ") text
    || is_prefix (codes "DELETE ") text
    || is_prefix (codes "HEAD ") text
    || is_prefix (codes "OPTIONS ") text
    || is_prefix (codes "CONNECT ") text
    || is_prefix (codes "PATCH ") text

-- The value of a line that is the header.
unfoldable pub header_value : Text → Option Text
unfolding strip_prefix
header_value line = elim (strip_prefix (codes "Host: ") line) [
  | some host ↦ some host
  | none ↦ strip_prefix (codes "host: ") line
]

unfoldable pub without_port : Text → Text
unfolding rsplit_once parse_uint
without_port host = elim (rsplit_once b':' host) [
  | some (before, port) ↦ elim (parse_uint 65535 port) [ parsed p ↦ before | failed _ ↦ host ]
  | none ↦ host
]

unfoldable pub first_host : List Text → Option Text
unfolding header_value without_port trim
first_host [] = none
first_host (line ∷ others) = elim (header_value line) [
  | some host ↦ some (without_port (trim host))
  | none ↦ first_host others
]

unfoldable pub sniff_http_host : Bytes → Option Text
unfolding from_utf8 looks_like_http first_host lines
sniff_http_host bytes = elim (from_utf8 bytes) [
  | none ↦ none
  | some text ↦ if not (looks_like_http text) then none else first_host (lines text)
]
