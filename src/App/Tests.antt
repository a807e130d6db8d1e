-- ===== src/App/Tests.antt =====
-- The program's theorems at a listener that fails twice, and at a short run of the main loop.
use redog.Common.{
  some, ℕ, ltb, if◌then◌else◌, Text, codes, List, [], ◌∷◌, map, false, text_eq, to_ascii_lowercase,
  parsed,
}
use redog.Core.Metadata.{Metadata, new_metadata, tcp, socks5}
use redog.Adapter.Outbound.{Sockets, TrackedStream, direct}
use redog.App.Queues.{Queue, channels, semaphores, semaphores-Hold}
use redog.App.Dispatch.{Program, Event, arrives, loops, opens, ends, clears, reads, start, run}
use redog.App.Permits.{Limited, run-Limited}
use redog.Core.Adapter.{ProxyAdapter}
use redog.Core.Address.{IpAddr, SocketAddr, v4}
use redog.Transport.Socks5.{Address, domain}
use redog.App.Restart.{RunsTo, run_listener_with_restart, run_listener_with_restart-RunsTo}
use redog.Core.Error.{Result, ok, err, timeout}
use redog.Rules.Libs.{Libs}

abbrev fails_twice : ℕ → Result (Unit {0})
fails_twice n = if ltb n 2 then err timeout else ok tt

run_listener_with_restart-RunsTo_example :
    RunsTo fails_twice 0 (run_listener_with_restart 11 fails_twice 0)
run_listener_with_restart-RunsTo_example = run_listener_with_restart-RunsTo fails_twice

-- Crates whose regular expressions and networks are plain texts.
abbrev pub libs : Libs Text Text
libs = record {
  to_lowercase = map to_ascii_lowercase;
  regex_new = λ p. parsed p;
  is_match = text_eq;
  parse_net = λ s. parsed s;
  net_contains = λ n ip. false;
  net_is_v4 = λ n. false;
}

abbrev pub net : Sockets ℕ ℕ
net = record {
  tcp_connect = λ a. ok 7;
  set_nodelay = λ s. ok s;
  udp_bind = ok 8;
  udp_connect = λ d a. ok d;
  lookup_host = λ h. ok (record { ip = v4 16909060; port = 443 } ∷ []);
  show_port = λ n. codes "port";
}

abbrev pub peer : SocketAddr
peer = record { ip = v4 2130706433; port = 5000 }

-- A name in the zone "a.test", and its port.
abbrev pub target : Address
target = domain (codes "www.a.test") 443

abbrev pub show_ip : IpAddr → Text
show_ip _ = codes "ip"

abbrev connection : Metadata
connection = record (new_metadata tcp socks5) {
  src_addr = peer;
  host = some (codes "www.a.test");
  dst_port = 443;
}

abbrev proxies : List (Text × ProxyAdapter (TrackedStream ℕ) ℕ)
proxies = (codes "DIRECT", direct net) ∷ []

-- A connection is received, handled and closed; another arrives.
abbrev events : List Event
events =
    arrives connection
    ∷ loops
    ∷ loops
    ∷ opens 0 5
    ∷ ends 0 (ok (10, 20))
    ∷ clears
    ∷ reads
    ∷ arrives connection
    ∷ []

abbrev first : Program Queue ℕ (TrackedStream ℕ) ℕ
first = start channels semaphores proxies []

abbrev after : Program Queue ℕ (TrackedStream ℕ) ℕ
after = run channels semaphores show_ip net.show_port (direct net) events first

run-Limited_example : Limited channels semaphores show_ip net.show_port (direct net) after
run-Limited_example =
    run-Limited channels semaphores show_ip net.show_port (direct net) semaphores-Hold proxies []
      events
