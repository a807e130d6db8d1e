-- ===== src/Transport/Socks5.antt =====
-- redog-transport/src/socks5.rs: the server's handshake and the encoding of addresses.
pub mod RoundTrip
mod Tests
use redog.Common.{
  ℕ, ◌+◌, ◌%◌, Bool, true, false, not, Text, codes, List, [], ◌∷◌, ◌++◌, Option, none, some, ◌==◌,
  if◌then◌else◌, length, to_decimal,
}
use redog.Common.Utf8.{Bytes, utf8, from_utf8}
use redog.Core.Address.{IpAddr, v4, v6, SocketAddr}
use redog.Core.Error.{Error, protocol, Result, ok, err}
use redog.Transport.Wire.{
  Codec, ◌>>=◌, ◌>>◌, return, fail, read_exact, write_all, be_bytes, of_be_bytes,
}

abbrev pub socks5_version : ℕ
socks5_version = 5

abbrev pub no_auth : ℕ
no_auth = 0

pub data Command : Type 0 where
  connect bind udp_associate : Command

abbrev pub command_code : Command → ℕ
command_code connect = 1
command_code bind = 2
command_code udp_associate = 3

-- `Command::try_from`
unfoldable pub command_of : ℕ → Result Command
command_of v =
    if v == 1
    then ok connect
    else if v == 2
    then ok bind
    else if v == 3
    then ok udp_associate
    else err (protocol (codes "unknown SOCKS5 command: " ++ to_decimal v))

pub data Address : Type 0 where
  ip : SocketAddr → Address
  domain : Text → ℕ → Address

-- `Address::host`, given how an address is printed
unfoldable pub address_host : (IpAddr → Text) → Address → Text
address_host show_ip (ip a) = show_ip a.ip
address_host show_ip (domain d _) = d

unfoldable pub address_port : Address → ℕ
address_port (ip a) = a.port
address_port (domain _ p) = p

unfoldable pub address_ip : Address → Option IpAddr
address_ip (ip a) = some a.ip
address_ip (domain _ _) = none

abbrev encode_socket : IpAddr → ℕ → Bytes
encode_socket (v4 n) port = 1 ∷ (be_bytes 4 n ++ be_bytes 2 port)
encode_socket (v6 n) port = 4 ∷ (be_bytes 16 n ++ be_bytes 2 port)

unfoldable pub encode_address : Address → Bytes
unfolding be_bytes utf8
encode_address (ip a) = encode_socket a.ip a.port
encode_address (domain d port) = 3 ∷ (length (utf8 d) % 256) ∷ (utf8 d ++ be_bytes 2 port)

abbrev first_byte : Bytes → Codec ℕ
first_byte (b ∷ _) = return b
first_byte [] = return 0

unfoldable pub read_u8 : Codec ℕ
unfolding read_exact
read_u8 = do buf ← read_exact 1; first_byte buf

unfoldable pub read_u16 : Codec ℕ
unfolding read_exact of_be_bytes
read_u16 = do buf ← read_exact 2; return (of_be_bytes 0 buf)

-- `String::from_utf8` on the bytes of a domain; the text of its error is not kept.
abbrev decode_domain : Option Text → Codec Text
decode_domain (some d) = return d
decode_domain none = fail (protocol (codes "invalid domain"))

unfoldable pub read_address : ℕ → Codec Address
unfolding read_exact read_u8 read_u16 of_be_bytes from_utf8
read_address atyp =
    if atyp == 1
    then (do
      octets ← read_exact 4
      port ← read_u16
      return (ip (record { ip = v4 (of_be_bytes 0 octets); port = port })))
    else if atyp == 3
    then (do
      len ← read_u8
      buf ← read_exact len
      d ← decode_domain (from_utf8 buf)
      port ← read_u16
      return (domain d port))
    else if atyp == 4
    then (do
      octets ← read_exact 16
      port ← read_u16
      return (ip (record { ip = v6 (of_be_bytes 0 octets); port = port })))
    else fail (protocol (codes "unsupported SOCKS5 address type: " ++ to_decimal atyp))

abbrev pub reply : Bytes
reply = 5 ∷ 0 ∷ 0 ∷ 1 ∷ 0 ∷ 0 ∷ 0 ∷ 0 ∷ 0 ∷ 0 ∷ []

abbrev lift : {A : Type 0} → Result A → Codec A
lift (ok a) = return a
lift (err e) = fail e

-- The request after its header of four bytes.
abbrev pub read_request : Bytes → Codec (Command × Address)
read_request (ver ∷ cmd ∷ _ ∷ atyp ∷ _) =
    if not (ver == socks5_version)
    then fail (protocol (codes "invalid SOCKS5 request version"))
    else (do c ← lift (command_of cmd); a ← read_address atyp; write_all reply; return (c, a))
read_request _ = fail (protocol (codes "invalid SOCKS5 request version"))

unfoldable pub server_handshake : Codec (Command × Address)
unfolding read_exact read_u8 write_all command_of read_address
server_handshake = do
  ver ← read_u8
  if not (ver == socks5_version)
      then fail (protocol (codes "unsupported SOCKS version: " ++ to_decimal ver))
      else (do
        nmethods ← read_u8
        _ ← read_exact nmethods
        write_all (socks5_version ∷ no_auth ∷ [])
        header ← read_exact 4
        read_request header)
