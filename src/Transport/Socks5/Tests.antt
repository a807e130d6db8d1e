-- ===== src/Transport/Socks5/Tests.antt =====
-- The handshake at one client's message.
use redog.Common.{codes, [], ◌∷◌, ◌++◌, false, ◌≡◌, refl, arith}
use redog.Common.Utf8.{utf8, utf8_char}
use redog.Core.Error.{ok}
use redog.Transport.Socks5.{Address, connect, domain, reply, server_handshake}
use redog.Transport.Socks5.RoundTrip.{Fits, client_message, server_handshake-client_message}
use redog.Transport.Wire.{Wire}

abbrev target : Address
target = domain (codes "a.test") 443

target-Fits : Fits target
unfolding utf8 utf8_char
target-Fits = ((refl, (refl, (refl, (refl, (refl, (refl, tt)))))), omega arith, omega arith)

-- The client sends its message and then the byte 22.
abbrev client : Wire
client = record {
  input = client_message (0 ∷ []) connect target ++ (22 ∷ []);
  output = [];
  broken = false;
}

server_handshake-client_message_example :
    server_handshake client
    ≡ (record client { input = 22 ∷ []; output = (5 ∷ 0 ∷ []) ++ reply }, ok (connect, target))
server_handshake-client_message_example =
    server_handshake-client_message (0 ∷ []) connect target (22 ∷ []) client (omega arith)
      target-Fits refl refl
