-- ===== src/Listener/HostPort.antt =====
-- redog-listener/src/http_parse.rs: `parse_host_port` and `extract_host_from_target`.
use redog.Common.{
  ℕ, Text, codes, [], ◌∷◌, ◌++◌, none, some, ◌==◌, if◌then◌else◌, strip_prefix, split_once,
  rsplit_once, parse_uint, parsed, failed,
}
use redog.Core.Error.{Error, protocol, Result, ok, err, ◌>>=◌}

-- The port of `s` in the text `port`; an empty one is the default.
unfoldable pub port_in : Text → ℕ → Text → Result ℕ
unfolding parse_uint
port_in s default_port [] = ok default_port
port_in s default_port (c ∷ port) = elim (parse_uint 65535 (c ∷ port)) [
  | parsed p ↦ ok p
  | failed _ ↦ err (protocol (codes "invalid port in: " ++ s))
]

-- What follows the bracket of an IPv6 address.
unfoldable pub port_after : Text → ℕ → Text → Result ℕ
unfolding port_in strip_prefix
port_after s default_port rest = elim (strip_prefix (codes ":") rest) [
  | some port ↦ port_in s default_port port
  | none ↦ ok default_port
]

abbrev malformed : Text → Error
malformed s = protocol (codes "malformed IPv6 address: " ++ s)

-- `before` is what stands before the first closing bracket.
abbrev bracketed : Text → ℕ → Text → Text → Result (Text × ℕ)
bracketed s default_port [] rest = err (malformed s)
bracketed s default_port (c ∷ host) rest =
    if c == b'['
    then (port_after s default_port rest >>= λ port. ok (host, port))
    else err (malformed s)

-- `host` is what stands before the last colon.
abbrev with_colon : Text → ℕ → Text → Text → Result (Text × ℕ)
with_colon s default_port [] port = err (protocol (codes "empty host in: " ++ s))
with_colon s default_port (c ∷ host) port = port_in s default_port port >>= λ p. ok (c ∷ host, p)

unfoldable pub parse_host_port : Text → ℕ → Result (Text × ℕ)
unfolding split_once rsplit_once port_after port_in
parse_host_port [] default_port = err (protocol (codes "empty host string"))
parse_host_port (c ∷ s) default_port = elim (split_once b']' (c ∷ s)) [
  | some (before, rest) ↦ bracketed (c ∷ s) default_port before rest
  | none ↦ elim (rsplit_once b':' (c ∷ s)) [
    | some (host, port) ↦ with_colon (c ∷ s) default_port host port
    | none ↦ ok (c ∷ s, default_port)
  ]
]

-- What stands before the first slash.
unfoldable pub before_slash : Text → Text
unfolding split_once
before_slash rest = elim (split_once b'/' rest) [ some (a, _) ↦ a | none ↦ rest ]

unfoldable pub host_part : Text → Text
unfolding strip_prefix before_slash
host_part target = elim (strip_prefix (codes "http://") target) [
  | some rest ↦ before_slash rest
  | none ↦ elim (strip_prefix (codes "https://") target) [
    | some rest ↦ before_slash rest
    | none ↦ target
  ]
]

unfoldable pub extract_host_from_target : Text → ℕ → Result (Text × ℕ)
unfolding host_part parse_host_port
extract_host_from_target target default_port = parse_host_port (host_part target) default_port
