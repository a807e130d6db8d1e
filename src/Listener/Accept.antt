-- ===== src/Listener/Accept.antt =====
-- redog-listener/src/mixed/mod.rs, http/mod.rs and socks/mod.rs: `start_mixed_listener`,
-- `start_http_listener` and `start_socks_listener`. A call is described by what the bind and each
-- accept give; it ends at the first accept that fails. The task of each stream is listed by what it
-- sends to the tunnel.
use redog.Common.{List, [], ◌∷◌, Text, ◌≡◌, refl}
use redog.Core.Address.{IpAddr, SocketAddr}
use redog.Core.Error.{Error, Result, ok, err}
use redog.Core.Metadata.{Metadata}
use redog.Listener.Both.{ran}
use redog.Listener.Http.{handle_http_connection}
use redog.Listener.Mixed.{handle_mixed_connection}
use redog.Listener.Reader.{Socket, as_wire, Run, answers, out_of_fuel}
use redog.Listener.Socks.{handle_socks_connection}
use redog.Transport.Wire.{Wire}

pub record Accepts : Type 0 where
  pub bound : Result (Unit {0})
  pub streams : List (Socket × SocketAddr)
  pub failure : Error

-- What the task of a stream sends.
abbrev pub sent_by : Run Wire Metadata → List Metadata → List Metadata
sent_by (answers w (ok conn)) rest = conn ∷ rest
sent_by (answers w (err e)) rest = rest
sent_by out_of_fuel rest = rest

-- The loop over the streams.
abbrev pub sent_of :
    (SocketAddr → Socket → Run Wire Metadata) → List (Socket × SocketAddr) → List Metadata
sent_of handle [] = []
sent_of handle ((stream, peer_addr) ∷ rest) =
    sent_by (handle peer_addr stream) (sent_of handle rest)

-- The three listeners differ in their handlers.
abbrev pub start_listener :
    (SocketAddr → Socket → Run Wire Metadata) → Accepts → List Metadata × Result (Unit {0})
start_listener handle a = elim a.bound [
  | err e ↦ ([], err e)
  | ok _ ↦ (sent_of handle a.streams, err a.failure)
]

unfoldable pub start_mixed_listener : (IpAddr → Text) → Accepts → List Metadata × Result (Unit {0})
unfolding handle_mixed_connection
start_mixed_listener show_ip a = start_listener (handle_mixed_connection show_ip) a

unfoldable pub start_http_listener : Accepts → List Metadata × Result (Unit {0})
unfolding handle_http_connection
start_http_listener a = start_listener handle_http_connection a

unfoldable pub start_socks_listener : (IpAddr → Text) → Accepts → List Metadata × Result (Unit {0})
unfolding handle_socks_connection
start_socks_listener show_ip a =
    start_listener
      (λ peer_addr stream. ran (handle_socks_connection show_ip peer_addr (as_wire stream))) a

-- A call that ends has failed.
pub listener_fails :
    (handle : SocketAddr → Socket → Run Wire Metadata) (a : Accepts)
    → (e : Error) × ((start_listener handle a).1 ≡ err e)
listener_fails handle a = by_bound a.bound
  where
    by_bound :
        (b : Result (Unit {0}))
        → (e : Error) × ((start_listener handle (record a { bound = b })).1 ≡ err e)
    by_bound (ok u) = (a.failure, refl)
    by_bound (err e) = (e, refl)
