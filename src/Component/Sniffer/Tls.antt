-- ===== src/Component/Sniffer/Tls.antt =====
-- redog-component/src/sniffer.rs: `sniff_tls_sni`, `parse_client_hello_sni` in the parts between
-- its checks, and `parse_sni_extension`. The two loops take the length of their buffer as fuel.
use redog.Common.{
  ℕ, zero, suc, ◌+◌, ◌*◌, Bool, false, not, Text, Option, none, ◌==◌, leb, ltb, if◌then◌else◌,
  length, [], ◌∷◌,
}
use redog.Common.Utf8.{Bytes, from_utf8}
use redog.Component.Sniffer.Scan.{Scan, returns, out_of_fuel, ◌>>=◌, byte_at, slice, pair_at}

-- The loop over the names of the extension, `last` being the end of the list.
unfoldable pub scan_names : ℕ → Bytes → ℕ → ℕ → Scan (Option Text)
unfolding byte_at pair_at slice from_utf8
scan_names zero bytes last pos = out_of_fuel
scan_names (suc fuel) bytes last pos =
    if leb (pos + 3) last
    then (do
      name_type ← byte_at bytes pos
      name_len ← pair_at bytes (pos + 1)
      let next = scan_names fuel bytes last (pos + 3 + name_len)
      if name_type == 0
          then (if leb (pos + 3 + name_len) (length bytes)
              then (do name ← slice bytes (pos + 3) (pos + 3 + name_len); returns (from_utf8 name))
              else next)
          else next)
    else returns none

unfoldable pub parse_sni_extension : Bytes → Scan (Option Text)
unfolding scan_names pair_at
parse_sni_extension bytes = if ltb (length bytes) 2 then returns none else (do
  list_len ← pair_at bytes 0
  if ltb (length bytes) (2 + list_len)
      then returns none
      else scan_names (length bytes) bytes (2 + list_len) 2)

-- The loop over the extensions.
unfoldable pub scan_extensions : ℕ → Bytes → ℕ → ℕ → Scan (Option Text)
unfolding pair_at slice parse_sni_extension
scan_extensions zero bytes extensions_end pos = out_of_fuel
scan_extensions (suc fuel) bytes extensions_end pos =
    if leb (pos + 4) extensions_end
    then (do
      ext_type ← pair_at bytes pos
      ext_len ← pair_at bytes (pos + 2)
      let next = scan_extensions fuel bytes extensions_end (pos + 4 + ext_len)
      if ext_type == 0
          then (do
            extension ← slice bytes (pos + 4) (pos + 4 + ext_len)
            parse_sni_extension extension)
          else next)
    else returns none

unfoldable pub at_extensions : Bytes → ℕ → Scan (Option Text)
unfolding scan_extensions pair_at
at_extensions bytes pos = if ltb (length bytes) (pos + 2) then returns none else (do
  extensions_len ← pair_at bytes pos
  if ltb (length bytes) (pos + 2 + extensions_len)
      then returns none
      else scan_extensions (length bytes) bytes (pos + 2 + extensions_len) (pos + 2))

unfoldable pub at_compression : Bytes → ℕ → Scan (Option Text)
unfolding at_extensions byte_at
at_compression bytes pos =
    if leb (length bytes) pos
    then returns none
    else (do compression_len ← byte_at bytes pos; at_extensions bytes (pos + 1 + compression_len))

unfoldable pub at_ciphers : Bytes → ℕ → Scan (Option Text)
unfolding at_compression pair_at
at_ciphers bytes pos = if ltb (length bytes) (pos + 2) then returns none else (do
  cipher_suites_len ← pair_at bytes pos
  at_compression bytes (pos + 2 + cipher_suites_len))

unfoldable pub at_session : Bytes → ℕ → Scan (Option Text)
unfolding at_ciphers byte_at
at_session bytes pos =
    if leb (length bytes) pos
    then returns none
    else (do session_id_len ← byte_at bytes pos; at_ciphers bytes (pos + 1 + session_id_len))

-- The first byte, read only if there is one.
unfoldable pub is_client_hello : Bytes → Bool
is_client_hello [] = false
is_client_hello (b ∷ _) = b == 1

unfoldable pub parse_client_hello_sni : Bytes → Scan (Option Text)
unfolding is_client_hello at_session byte_at pair_at
parse_client_hello_sni bytes =
    if not (is_client_hello bytes)
    then returns none
    else if ltb (length bytes) 4
    then returns none
    else (do
      high ← byte_at bytes 1
      low ← pair_at bytes 2
      if ltb (length bytes) (4 + (high * 65536 + low)) then returns none else at_session bytes 38)

unfoldable pub sniff_tls_sni : Bytes → Scan (Option Text)
unfolding parse_client_hello_sni byte_at pair_at slice
sniff_tls_sni bytes = if ltb (length bytes) 6 then returns none else (do
  kind ← byte_at bytes 0
  if not (kind == 0x16) then returns none else (do
    _record_version ← pair_at bytes 1
    record_length ← pair_at bytes 3
    if ltb (length bytes) (5 + record_length)
        then returns none
        else (do handshake ← slice bytes 5 (5 + record_length); parse_client_hello_sni handshake)))
