-- ===== src/Api/Tests.antt =====
-- The theorems on the interface at a map with a proxy and a group, and a request that the desktop
-- application sends and no route takes.
use redog.Common.{ℕ, true, false, Text, codes, List, [], ◌∷◌, none, text_eq, ◌≡◌, refl}
use redog.Adapter.Selector.{Selector}
use redog.Core.Adapter.{AdapterType, ProxyAdapter}
use redog.Core.Error.{ok, done}
use redog.Core.Metadata.{new_metadata, tcp, http}
use redog.Core.Rule
use redog.Core.Rule.{Rule}
use redog.Tunnel.Routing.{rule}
use redog.Tunnel.Statistics.{new_counter, new_tracker}
use redog.Api.Selection.{Changes, Routed, change_proxy_lem, change_proxy-match_adapter}
use redog.Api.Server.{change_proxy, route, put, not_allowed}
use redog.Api.State.{plain, group, ApiState, adapters, status_only}

abbrev member : Text → ProxyAdapter ℕ ℕ
member name = record {
  name = name;
  adapter_type = AdapterType.direct;
  connect_stream = λ _. ok 7;
  connect_datagram = λ _. ok 8;
  support_udp = true;
  addr = none;
  alive = true;
}

abbrev group_at : ℕ → Selector ℕ ℕ
group_at i = record {
  name = codes "G";
  proxies = member (codes "A") ∷ member (codes "B") ∷ [];
  selected = i;
}

abbrev to_group : Rule
to_group = record {
  rule_type = Rule.match;
  matches = λ _. true;
  adapter = codes "G";
  payload = [];
  should_resolve_ip = false;
  should_find_process = false;
}

abbrev state_at : ℕ → ApiState ℕ ℕ
state_at i = record {
  proxies = (codes "A", plain (member (codes "A"))) ∷ (codes "G", group (group_at i)) ∷ [];
  rules = to_group ∷ [];
  mode = rule;
  traffic = new_counter;
  connections = new_tracker;
}

change_proxy_lem_example :
    Changes (codes "G") (codes "B") (state_at 0) (change_proxy (codes "G") (codes "B") (state_at 0))
change_proxy_lem_example = change_proxy_lem (codes "G") (codes "B") (state_at 0)

abbrev seen : List (Text × ProxyAdapter ℕ ℕ)
seen =
    (codes "A", member (codes "A"))
    ∷ (
      codes "G",
      record (member (codes "B")) { name = codes "G"; adapter_type = AdapterType.selector },
    )
    ∷ []

chosen : change_proxy (codes "G") (codes "B") (state_at 0) ≡ (state_at 1, status_only 204)
unfolding change_proxy text_eq
chosen = refl

seen_is : adapters (state_at 1).proxies ≡ done seen
unfolding adapters
seen_is = refl

change_proxy-match_adapter_example :
    Routed
      (member (codes "DIRECT"))
      (codes "G")
      (codes "B")
      (state_at 0)
      (state_at 1)
      seen
      (new_metadata tcp http)
change_proxy-match_adapter_example =
    change_proxy-match_adapter (member (codes "DIRECT")) (codes "G") (codes "B") (state_at 0)
      (state_at 1) seen to_group [] (new_metadata tcp http) chosen seen_is refl refl refl refl

-- `reload_config_blocking` of the desktop application
reload_route : route (codes "configs" ∷ []) put ≡ not_allowed
unfolding route
reload_route = refl
