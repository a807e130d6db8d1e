-- ===== src/Tunnel/Tests.antt =====
-- The tunnel's theorems at a small table of adapters and rules.
use mathlib.Core.List.{Permᴰ}
use redog.Common.{
  ◌≢◌, reverse, ℕ, ◌==◌, true, false, Text, codes, List, [], ◌∷◌, some, none, text_eq, ◌≡◌, refl,
  arith,
}
use redog.Core.Adapter.{AdapterType, ProxyAdapter}
use redog.Core.Address.{IpAddr, v4}
use redog.Core.Error.{ok}
use redog.Core.Metadata.{Metadata, tcp, http, normal}
use redog.Core.Rule.{Rule, RuleType}
use redog.Tunnel.FirstMatch.{ModeAnswer, match_adapter-ModeAnswer}
use redog.Tunnel.Handler.{open_connection, close_connection}
use redog.Tunnel.Leaks.{System, opens, ends, Reach, here, next, Held, Reach-no_leak}
use redog.Tunnel.Order.{UniqueKeys, match_adapter_order}
use redog.Tunnel.Routing.{
  global, new, match_adapter, match_rules, find_proxy, find_global, update_proxies, set_mode,
}
use redog.Tunnel.Speeds
use redog.Tunnel.Speeds.{Operation, upload, download, advance, run, uploaded, sum_up}
use redog.Tunnel.Speeds.Covers.{Covers, run-Covers}
use redog.Tunnel.Speeds.Serial.{Accounts, DoesNotOverlap, run-Accounts}
use redog.Tunnel.Statistics.{track, snapshot_step, add_upload, add_download, load_upload}

-- An adapter that connects; its streams and datagrams are numbers.
abbrev adapter : Text → ProxyAdapter ℕ ℕ
adapter name = record {
  name = name;
  adapter_type = AdapterType.direct;
  connect_stream = λ _. ok 7;
  connect_datagram = λ _. ok 8;
  support_udp = true;
  addr = none;
  alive = true;
}

abbrev proxies : List (Text × ProxyAdapter ℕ ℕ)
proxies = (codes "DIRECT", adapter (codes "DIRECT")) ∷ (codes "Proxy", adapter (codes "Proxy")) ∷ []

abbrev rules : List Rule
rules =
    record {
      rule_type = RuleType.dst_port;
      matches = λ m. m.dst_port == 443;
      adapter = codes "Proxy";
      payload = codes "443";
      should_resolve_ip = false;
      should_find_process = false;
    }
    ∷ []

abbrev connection : Metadata
connection = record {
  network = tcp;
  inbound_type = http;
  src_addr = record { ip = v4 2130706433; port = 5000 };
  dst_ip = none;
  dst_port = 443;
  host = some (codes "a.test");
  dns_mode = normal;
  process_path = none;
  process_name = none;
  inbound_addr = none;
  inbound_name = none;
  dscp = 0;
}

match_adapter-ModeAnswer_example :
    ModeAnswer
      (adapter (codes "DIRECT"))
      (new proxies rules).mode
      (new proxies rules)
      connection
      (match_adapter (adapter (codes "DIRECT")) (new proxies rules) connection)
match_adapter-ModeAnswer_example =
    match_adapter-ModeAnswer (adapter (codes "DIRECT")) (new proxies rules) connection

abbrev show_ip : IpAddr → Text
show_ip _ = codes "ip"

abbrev show_port : ℕ → Text
show_port n = codes "port"

abbrev start : System ℕ ℕ
start = record { tunnel = new proxies rules; live = [] }

abbrev opened : System ℕ ℕ
opened = record {
  tunnel =
      (open_connection show_ip show_port (adapter (codes "DIRECT")) 5 connection start.tunnel).0;
  live = 0 ∷ [];
}

-- A handler opens a connection, and ends.
abbrev closed : System ℕ ℕ
closed = record { tunnel = close_connection 0 (ok (10, 20)) opened.tunnel; live = [] }

opens_0 :
    open_connection show_ip show_port (adapter (codes "DIRECT")) 5 connection start.tunnel
    ≡ (opened.tunnel, some (0, 7))
unfolding open_connection new match_adapter match_rules find_proxy track text_eq
opens_0 = refl

session : Reach show_ip show_port (adapter (codes "DIRECT")) start closed
session =
    next (next here (opens start 5 connection opened.tunnel 0 7 opens_0))
      (ends opened 0 (ok (10, 20)) refl)

Reach-no_leak_example :
    Held show_ip show_port (adapter (codes "DIRECT")) closed
    × (closed.live ≡ [] → closed.tunnel.connections.connections ≡ [])
Reach-no_leak_example =
    Reach-no_leak show_ip show_port (adapter (codes "DIRECT")) proxies rules session

-- A snapshot with bytes that are counted between its operations, and the beginning of another.
abbrev apart : List Operation
apart =
    upload 5
    ∷ advance 0
    ∷ upload 2
    ∷ advance 0
    ∷ advance 0
    ∷ download 7
    ∷ advance 0
    ∷ advance 1
    ∷ advance 1
    ∷ []

apart-DoesNotOverlap : DoesNotOverlap apart (Speeds.start 2)
unfolding Speeds.apply Speeds.advance_at snapshot_step add_upload add_download load_upload
apart-DoesNotOverlap = ((tt, tt), ((tt, tt), ((tt, tt), ((tt, tt), ((tt, tt), ((tt, tt), tt))))))

run-Accounts_example : Accounts apart (run apart (Speeds.start 2))
run-Accounts_example = run-Accounts 2 apart (omega arith) (omega arith) apart-DoesNotOverlap

-- The second snapshot loads after the first and swaps before it; a third one follows.
abbrev overlapping : List Operation
overlapping =
    upload 10
    ∷ advance 0
    ∷ upload 5
    ∷ advance 1
    ∷ advance 0
    ∷ advance 1
    ∷ advance 1
    ∷ advance 0
    ∷ advance 0
    ∷ advance 1
    ∷ advance 2
    ∷ advance 2
    ∷ advance 2
    ∷ advance 2
    ∷ []

run-Covers_example : Covers overlapping (run overlapping (Speeds.start 3))
run-Covers_example = run-Covers 3 overlapping (omega arith) (omega arith)

-- 20 bytes are reported where 15 were uploaded.
reported_twice :
    (uploaded overlapping ≡ 15) × (sum_up (run overlapping (Speeds.start 3)).tasks ≡ 20)
unfolding run
reported_twice = (refl, refl)

abbrev exchanged : List (Text × ProxyAdapter ℕ ℕ)
exchanged =
    (codes "Proxy", adapter (codes "Proxy")) ∷ (codes "DIRECT", adapter (codes "DIRECT")) ∷ []

proxies-UniqueKeys : UniqueKeys proxies
unfolding find_proxy text_eq
proxies-UniqueKeys = (refl, (refl, tt))

in_rule_mode : (new proxies rules).mode ≢ global
unfolding new
in_rule_mode e = cc

match_adapter_order_example :
    match_adapter
      (adapter (codes "DIRECT"))
      (update_proxies exchanged (new proxies rules))
      connection
    ≡ match_adapter (adapter (codes "DIRECT")) (new proxies rules) connection
unfolding new
match_adapter_order_example =
    match_adapter_order (adapter (codes "DIRECT")) (new proxies rules) exchanged connection
      (Permᴰ.swap refl refl) proxies-UniqueKeys in_rule_mode

-- In the global mode the order decides.
abbrev other_order : List (Text × ProxyAdapter ℕ ℕ)
other_order = (codes "B", adapter (codes "B")) ∷ (codes "A", adapter (codes "A")) ∷ []

unfoldable global_choice : List (Text × ProxyAdapter ℕ ℕ) → Text
unfolding match_adapter new set_mode find_global
global_choice ps =
    let t = set_mode global (new ps rules) in
    (match_adapter (adapter (codes "DIRECT")) t connection).adapter.name

global_first : global_choice other_order ≡ codes "B"
unfolding global_choice text_eq
global_first = refl

global_second : global_choice (reverse other_order) ≡ codes "A"
unfolding global_choice text_eq
global_second = refl
