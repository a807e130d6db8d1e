-- ===== src/App/Setup.antt =====
-- redog/src/main.rs: the rules that `main` builds from the configuration, the tables of adapters
-- that it starts with, the ports of its listeners, and the default configuration.
use redog.Common.{
  ℕ, Bool, true, false, Option, ◌++◌, Text, codes, List, [], ◌∷◌, none, some, parsed, failed,
}
use redog.Adapter.Outbound.{Sockets, TrackedStream, direct, reject}
use redog.Config.Types.{Config, TunnelMode, LogLevel}
use redog.Core.Address.{SocketAddr, v4}
use redog.Core.Adapter.{ProxyAdapter}
use redog.Core.Error.{Result, ok, err}
use redog.Core.Rule.{Rule}
use redog.Rules.Libs.{Libs}
use redog.Rules.Parser.{as_rule, parse_rule}
use redog.Tunnel.Routing.{Tunnel, new}

module _ {Regex IpNet : Type 0} (libs : Libs Regex IpNet) where
  -- The loop over the configuration's rules: a rule that does not parse is skipped.
  unfoldable pub build_rules : List Text → List Rule
  unfolding parse_rule as_rule
  build_rules [] = []
  build_rules (rule_str ∷ rest) = elim (parse_rule libs rule_str) [
    | parsed rule ↦ as_rule libs rule ∷ build_rules rest
    | failed e ↦ build_rules rest
  ]

-- The adapters that the program starts with.
unfoldable pub initial_proxies :
    {Stream Datagram : Type 0}
    → Sockets Stream Datagram
    → List (Text × ProxyAdapter (TrackedStream Stream) Datagram)
unfolding direct reject
initial_proxies net = (codes "DIRECT", direct net) ∷ (codes "REJECT", reject) ∷ []

-- The address that a listener is bound to: all of the machine's, or the local one alone.
unfoldable pub listen_addr : Bool → ℕ → SocketAddr
listen_addr true port = record { ip = v4 0; port = port }
listen_addr false port = record { ip = v4 2130706433; port = port }

abbrev pub or_port : ℕ → Option ℕ → ℕ
or_port d none = d
or_port d (some p) = p

unfoldable pub if_set : Text → Bool → Option ℕ → List (Text × SocketAddr)
if_set name allow_lan none = []
if_set name allow_lan (some port) = (name, listen_addr allow_lan port) ∷ []

-- The listeners that are started: the mixed one always, and the others where a port is set.
unfoldable pub listeners : Config → List (Text × SocketAddr)
unfolding if_set listen_addr
listeners config =
    (codes "mixed", listen_addr config.allow_lan (or_port 7890 config.mixed_port))
    ∷ (if_set (codes "HTTP") config.allow_lan config.port
        ++ if_set (codes "SOCKS5") config.allow_lan config.socks_port)

unfoldable pub default_config : Config
default_config = record {
  port = none;
  socks_port = none;
  mixed_port = some 7890;
  redir_port = none;
  tproxy_port = none;
  allow_lan = false;
  bind_address = codes "*";
  mode = TunnelMode.rule;
  log_level = LogLevel.info;
  external_controller = some (codes "127.0.0.1:9090");
  external_ui = none;
  secret = none;
  dns = none;
  tun = none;
  proxies = [];
  proxy_groups = [];
  proxy_providers = [];
  rule_providers = [];
  rules = codes "MATCH,DIRECT" ∷ [];
}

-- The path of the configuration: the program's first argument, or a default.
unfoldable pub config_path : Option Text → Text
config_path none = codes "config.yaml"
config_path (some path) = path

-- The configuration that the program runs with: the one that was loaded, or the default.
unfoldable pub main_config : Result Config → Config
unfolding default_config
main_config (ok c) = c
main_config (err e) = default_config

-- The address of the API server, and its secret, where one is started.
unfoldable pub api_server : Config → Option (Text × Option Text)
api_server config = elim config.external_controller [
  | none ↦ none
  | some api_addr ↦ some (api_addr, config.secret)
]

-- The tunnel that the program starts with.
unfoldable pub main_tunnel :
    {Regex IpNet Stream Datagram : Type 0}
    → Libs Regex IpNet
    → Sockets Stream Datagram
    → Config
    → Tunnel (TrackedStream Stream) Datagram
unfolding build_rules initial_proxies new
main_tunnel libs net config = new (initial_proxies net) (build_rules libs config.rules)
