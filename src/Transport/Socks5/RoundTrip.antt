-- ===== src/Transport/Socks5/RoundTrip.antt =====
-- What a client that follows the protocol gets from the server's handshake.
use redog.Common.{
  ℕ, ◌%◌, ◌^◌, ◌<◌, false, Text, [], ◌∷◌, ◌++◌, length, All, ◌≡◌, refl, ap, ◌∙◌, arith,
}
use mathlib.Core.List.{append_assoc}
use redog.Common.Utf8.{Bytes, utf8, IsScalar, from_utf8-utf8}
use redog.Core.Address.{IpAddr, v4, v6}
use redog.Core.Error.{ok}
use redog.Transport.Wire.{
  Wire, read_exact, write_all, be_bytes, read_exact_append, length-be_bytes, of_be_bytes-be_bytes,
}
use redog.Transport.Socks5.{
  Command, connect, bind, udp_associate, command_code, command_of, Address, ip, domain,
  encode_address, read_u8, read_u16, read_address, reply, read_request, server_handshake,
}

-- An address that the format can carry.
abbrev pub IpFits : IpAddr → Type 0
IpFits (v4 n) = n < 256 ^ 4
IpFits (v6 n) = n < 256 ^ 16

abbrev pub Fits : Address → Type 0
Fits (ip a) = IpFits a.ip × (a.port < 65536)
Fits (domain d port) = All IsScalar d × (length (utf8 d) < 256) × (port < 65536)

abbrev ip_code : IpAddr → ℕ
ip_code (v4 n) = 1
ip_code (v6 n) = 4

abbrev ip_body : IpAddr → Bytes
ip_body (v4 n) = be_bytes 4 n
ip_body (v6 n) = be_bytes 16 n

-- The first byte of an encoded address, and the others.
abbrev pub code_of : Address → ℕ
code_of (ip a) = ip_code a.ip
code_of (domain d port) = 3

abbrev pub body_of : Address → Bytes
body_of (ip a) = ip_body a.ip ++ be_bytes 2 a.port
body_of (domain d port) = (length (utf8 d) % 256) ∷ (utf8 d ++ be_bytes 2 port)

encode_ip_lem :
    (i : IpAddr) (port : ℕ)
    → encode_address (ip (record { ip = i; port = port }))
      ≡ ip_code i ∷ (ip_body i ++ be_bytes 2 port)
unfolding encode_address
encode_ip_lem (v4 n) port = refl
encode_ip_lem (v6 n) port = refl

encode_address_lem : (a : Address) → encode_address a ≡ code_of a ∷ body_of a
unfolding encode_address
encode_address_lem (ip a) = encode_ip_lem a.ip a.port
encode_address_lem (domain d port) = refl

read_u8_lem :
    (b : ℕ) (rest : Bytes) (w : Wire)
    → w.input ≡ b ∷ rest
    → read_u8 w ≡ (record w { input = rest }, ok b)
unfolding read_u8
read_u8_lem b rest w e = rw (read_exact_append (b ∷ []) rest w e) refl

read_exact_of_length :
    (n : ℕ) (xs rest : Bytes) (w : Wire)
    → length xs ≡ n
    → w.input ≡ xs ++ rest
    → read_exact n w ≡ (record w { input = rest }, ok xs)
read_exact_of_length n xs rest w l e = rw (← l) (read_exact_append xs rest w e)

read_u16_lem :
    (p : ℕ) (rest : Bytes) (w : Wire)
    → p < 65536
    → w.input ≡ be_bytes 2 p ++ rest
    → read_u16 w ≡ (record w { input = rest }, ok p)
unfolding read_u16
read_u16_lem p rest w h e =
    rw (read_exact_of_length 2 (be_bytes 2 p) rest w (length-be_bytes 2 p) e)
      (rw (of_be_bytes-be_bytes 2 p h) refl)

read_ip_lem :
    (i : IpAddr) (port : ℕ) (rest : Bytes) (w : Wire)
    → IpFits i
    → port < 65536
    → w.input ≡ ip_body i ++ (be_bytes 2 port ++ rest)
    → read_address (ip_code i) w
      ≡ (record w { input = rest }, ok (ip (record { ip = i; port = port })))
unfolding read_address
read_ip_lem (v4 n) port rest w fits h e =
    rw (read_exact_of_length 4 (be_bytes 4 n) (be_bytes 2 port ++ rest) w (length-be_bytes 4 n) e) (
      rw (read_u16_lem port rest (record w { input = be_bytes 2 port ++ rest }) h refl)
        (rw (of_be_bytes-be_bytes 4 n fits) refl))
read_ip_lem (v6 n) port rest w fits h e =
    rw
      (read_exact_of_length 16 (be_bytes 16 n) (be_bytes 2 port ++ rest) w (length-be_bytes 16 n) e)
      (rw (read_u16_lem port rest (record w { input = be_bytes 2 port ++ rest }) h refl)
        (rw (of_be_bytes-be_bytes 16 n fits) refl))

read_domain_lem :
    (d : Text) (port : ℕ) (rest : Bytes) (w : Wire)
    → Fits (domain d port)
    → w.input ≡ length (utf8 d) ∷ (utf8 d ++ (be_bytes 2 port ++ rest))
    → read_address 3 w ≡ (record w { input = rest }, ok (domain d port))
unfolding read_address
read_domain_lem d port rest w (scalars, short, h) e =
    rw (read_u8_lem (length (utf8 d)) (utf8 d ++ (be_bytes 2 port ++ rest)) w e) (
      rw
        (read_exact_append (utf8 d) (be_bytes 2 port ++ rest)
          (record w { input = utf8 d ++ (be_bytes 2 port ++ rest) }) refl)
        (rw (from_utf8-utf8 d scalars)
          (rw (read_u16_lem port rest (record w { input = be_bytes 2 port ++ rest }) h refl) refl)))

read_body_lem :
    (a : Address) (rest : Bytes) (w : Wire)
    → Fits a
    → w.input ≡ body_of a ++ rest
    → read_address (code_of a) w ≡ (record w { input = rest }, ok a)
read_body_lem (ip a) rest w (fits, h) e =
    read_ip_lem a.ip a.port rest w fits h (e ∙ append_assoc (ip_body a.ip) (be_bytes 2 a.port) rest)
read_body_lem (domain d port) rest w f e =
    let short : length (utf8 d) % 256 ≡ length (utf8 d) = omega (arith, f.1) in
    read_domain_lem d port rest w f (
      e
      ∙ ap (λ (n : ℕ). n ∷ ((utf8 d ++ be_bytes 2 port) ++ rest)) short
      ∙ ap (◌∷◌ (length (utf8 d))) (append_assoc (utf8 d) (be_bytes 2 port) rest))

command_of_lem : (c : Command) → command_of (command_code c) ≡ ok c
unfolding command_of
command_of_lem connect = refl
command_of_lem bind = refl
command_of_lem udp_associate = refl

-- What a client sends: the version and its authentication methods, then its request.
abbrev pub client_message : Bytes → Command → Address → Bytes
client_message methods c a =
    5 ∷ length methods ∷ (methods ++ (5 ∷ command_code c ∷ 0 ∷ encode_address a))

read_request_lem :
    (c : Command) (a : Address) (rest : Bytes) (w : Wire)
    → Fits a
    → w.input ≡ body_of a ++ rest
    → w.broken ≡ false
    → read_request (5 ∷ command_code c ∷ 0 ∷ code_of a ∷ []) w
      ≡ (record w { input = rest; output = w.output ++ reply }, ok (c, a))
unfolding write_all
read_request_lem c a rest w f e live =
    rw (command_of_lem c) (rw (read_body_lem a rest w f e) (rw live refl))

abbrev handshake_tail : Command → Address → Bytes → Bytes
handshake_tail c a rest = 5 ∷ command_code c ∷ 0 ∷ code_of a ∷ (body_of a ++ rest)

-- Over a live connection with fewer than 256 methods offered, for every command and every address
-- that the format can carry: the handshake returns the client's command and address, has read the
-- client's message and no more, and has written the choice of no authentication and the reply.
pub server_handshake-client_message :
    (methods : Bytes) (c : Command) (a : Address) (rest : Bytes) (w : Wire)
    → length methods < 256
    → Fits a
    → w.broken ≡ false
    → w.input ≡ client_message methods c a ++ rest
    → server_handshake w
      ≡ (record w { input = rest; output = (w.output ++ (5 ∷ 0 ∷ [])) ++ reply }, ok (c, a))
unfolding server_handshake write_all
server_handshake-client_message methods c a rest w few f live e =
    let tail = handshake_tail c a rest in
    let encoded = encode_address_lem a in
    let e1 : w.input ≡ 5 ∷ (length methods ∷ (methods ++ tail)) =
      e
      ∙ ap (λ (t : Bytes). 5 ∷ length methods ∷ ((methods ++ (5 ∷ command_code c ∷ 0 ∷ t)) ++ rest))
          encoded
      ∙ ap (λ (t : Bytes). 5 ∷ length methods ∷ t)
          (append_assoc methods (5 ∷ command_code c ∷ 0 ∷ code_of a ∷ body_of a) rest) in
    let w1 = record w { input = length methods ∷ (methods ++ tail) } in
    let w2 = record w { input = methods ++ tail } in
    let w4 = record w { input = tail; output = w.output ++ (5 ∷ 0 ∷ []); broken = false } in
    let w5 = record w {
      input = body_of a ++ rest;
      output = w.output ++ (5 ∷ 0 ∷ []);
      broken = false;
    } in
    rw (read_u8_lem 5 (length methods ∷ (methods ++ tail)) w e1) (
      rw (read_u8_lem (length methods) (methods ++ tail) w1 refl) (
        rw (read_exact_append methods tail w2 refl) (
          rw live (
            rw
              (read_exact_of_length 4 (5 ∷ command_code c ∷ 0 ∷ code_of a ∷ []) (body_of a ++ rest)
                w4 refl refl)
              (read_request_lem c a rest w5 f refl refl)))))
