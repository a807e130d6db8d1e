-- ===== src/App/Dispatch.antt =====
-- redog/src/main.rs: the main loop, which receives the connections of the listeners and hands each
-- to a handler of the tunnel, of which a semaphore admits 4096. The tasks run one event at a time.
-- A handler has two events, as in redog-tunnel/src/tunnel.rs: up to the relay, and after it.
use redog.Common.{
  ℕ, zero, suc, Bool, true, false, Text, List, [], ◌∷◌, Option, none, some, if◌then◌else◌,
}
use redog.App.Libs.{
  Channels, Received, item, empty, disconnected, Semaphores, Acquired, acquired, pending, closed,
}
use redog.Core.Address.{IpAddr}
use redog.Core.Adapter.{ProxyAdapter}
use redog.Core.Error.{Result}
use redog.Core.Metadata.{Metadata}
use redog.Core.Rule.{Rule}
use redog.Tunnel.Handler.{open_connection, close_connection}
use redog.Tunnel.Leaks.{System, has, without}
use redog.Tunnel.Routing.{Tunnel, new}
use redog.Tunnel.Statistics.{close_all, snapshot}

abbrev pub max_concurrent_connections : ℕ
max_concurrent_connections = 4096

-- The channel and the semaphore, the connection that the loop has received and not yet handed on,
-- the handlers that have not yet opened their connection, the tunnel with the ids that the other
-- handlers hold, and whether the loop has ended.
pub record Program (Q P S D : Type 0) : Type 0 where
  pub rx : Q
  pub semaphore : P
  pub conn : Option Metadata
  pub starting : List Metadata
  pub system : System S D
  pub over : Bool

-- A listener sends a connection, or all have ended; the loop goes on; the handler at a place of
-- `starting` opens its connection; the relay of an id ends; the API closes all connections; the
-- traffic is read, in one step: what is shown of this loop is not about the counters.
pub data Event : Type 0 where
  arrives : Metadata → Event
  all_stop : Event
  loops : Event
  opens : ℕ → ℕ → Event
  ends : ℕ → Result (ℕ × ℕ) → Event
  clears reads : Event

-- The item at a place, and the list without it.
abbrev pub pick : {A : Type 0} → ℕ → List A → Option (A × List A)
pick n [] = none
pick zero (x ∷ xs) = some (x, xs)
pick (suc n) (x ∷ xs) = elim (pick n xs) [ none ↦ none | some (y, ys) ↦ some (y, x ∷ ys) ]

module _ {Q P S D : Type 0} where
  -- The `recv` at the loop's head, and what follows it.
  abbrev pub received : Program Q P S D → Received Metadata Q → Program Q P S D
  received p (item c rx) = record p { conn = some c; rx = rx }
  received p empty = p
  received p disconnected = record p { over = true }

  -- The permit for a connection that was received, and the handler's start.
  abbrev pub dispatched : Metadata → Program Q P S D → Acquired P → Program Q P S D
  dispatched c p (acquired s) = record p { semaphore = s; conn = none; starting = c ∷ p.starting }
  dispatched c p pending = p
  dispatched c p closed = record p { conn = none; over = true }

  -- A send is accepted while there is a receiver and room.
  abbrev pub sent : Program Q P S D → Option Q → Program Q P S D
  sent p none = p
  sent p (some rx) = record p { rx = rx }

  module _ (ch : Channels Metadata Q) (sem : Semaphores P) where
    unfoldable pub start : List (Text × ProxyAdapter S D) → List Rule → Program Q P S D
    unfolding new
    start proxies rules = record {
      rx = ch.channel 256;
      semaphore = sem.new max_concurrent_connections;
      conn = none;
      starting = [];
      system = record { tunnel = new proxies rules; live = [] };
      over = false;
    }

    -- The loop from one of its two waits to the next.
    unfoldable pub main_loop : Program Q P S D → Program Q P S D
    main_loop p = if p.over then p else elim p.conn [
      | some c ↦ dispatched c p (sem.acquire_owned p.semaphore)
      | none ↦ received p (ch.recv p.rx)
    ]

  module _ (sem : Semaphores P) where
    -- What the opening of a connection leads to.
    abbrev pub opened :
        List Metadata → Program Q P S D → Tunnel S D × Option (ℕ × S) → Program Q P S D
    opened others p (tunnel, none) = record p {
      starting = others;
      system = record { tunnel = tunnel; live = p.system.live };
      semaphore = sem.drop_permit p.semaphore;
    }
    opened others p (tunnel, some (id, remote)) = record p {
      starting = others;
      system = record { tunnel = tunnel; live = id ∷ p.system.live };
    }

    -- A handler's second part, after which the permit is dropped.
    unfoldable pub end_event : ℕ → Result (ℕ × ℕ) → Program Q P S D → Program Q P S D
    unfolding close_connection
    end_event id relayed p = record p {
      system = record {
        tunnel = close_connection id relayed p.system.tunnel;
        live = without id p.system.live;
      };
      semaphore = sem.drop_permit p.semaphore;
    }

  module _ (sem : Semaphores P) (show_ip : IpAddr → Text) (show_port : ℕ → Text)
      (fallback : ProxyAdapter S D) where
    -- The handler's first part: a connection that is not opened ends it, and drops its permit.
    unfoldable pub open_event : ℕ → Metadata → List Metadata → Program Q P S D → Program Q P S D
    unfolding open_connection
    open_event now m others p =
        opened sem others p (open_connection show_ip show_port fallback now m p.system.tunnel)

  module _ (ch : Channels Metadata Q) (sem : Semaphores P) (show_ip : IpAddr → Text)
      (show_port : ℕ → Text) (fallback : ProxyAdapter S D) where
    unfoldable pub step : Event → Program Q P S D → Program Q P S D
    unfolding main_loop open_event end_event close_all snapshot
    step (arrives m) p = if p.over then p else sent p (ch.send m p.rx)
    step all_stop p = record p { rx = ch.drop_senders p.rx }
    step loops p = main_loop ch sem p
    step (opens n now) p = elim (pick n p.starting) [
      | none ↦ p
      | some (m, others) ↦ open_event sem show_ip show_port fallback now m others p
    ]
    step (ends id relayed) p = if has id p.system.live then end_event sem id relayed p else p
    step clears p = record p {
      system = record {
        tunnel = record (p.system.tunnel) {
          connections = (close_all p.system.tunnel.connections).0;
        };
        live = p.system.live;
      };
    }
    step reads p = record p {
      system = record {
        tunnel = record (p.system.tunnel) { traffic = (snapshot p.system.tunnel.traffic).0 };
        live = p.system.live;
      };
    }

    unfoldable pub run : List Event → Program Q P S D → Program Q P S D
    unfolding step
    run [] p = p
    run (e ∷ es) p = run es (step e p)
