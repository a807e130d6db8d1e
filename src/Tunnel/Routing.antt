-- ===== src/Tunnel/Routing.antt =====
-- redog-tunnel/src/tunnel.rs: the tunnel's state, and how it chooses the adapter of a connection.
-- The map of proxies is the list of its entries in the order of iteration, which `HashMap` does not
-- fix; no key stands in it twice.
use redog.Common.{
  not, ◌&&◌, Text, codes, List, [], ◌∷◌, map, Option, none, some, if◌then◌else◌, text_eq,
}
use redog.Core.Adapter.{ProxyAdapter}
use redog.Core.Metadata.{Metadata}
use redog.Core.Rule.{Rule, show_rule_type}
use redog.Tunnel.Statistics.{TrafficCounter, ConnectionTracker, new_counter, new_tracker}

pub data Mode : Type 0 where
  rule global direct_mode : Mode

pub record MatchResult (S D : Type 0) : Type 0 where
  pub rule_name : Text
  pub rule_payload : Text
  pub adapter : ProxyAdapter S D

pub record Tunnel (S D : Type 0) : Type 0 where
  pub proxies : List (Text × ProxyAdapter S D)
  pub rules : List Rule
  pub mode : Mode
  pub traffic : TrafficCounter
  pub connections : ConnectionTracker

module _ {S D : Type 0} where
  -- `HashMap::get`
  unfoldable pub find_proxy : Text → List (Text × ProxyAdapter S D) → Option (ProxyAdapter S D)
  find_proxy k [] = none
  find_proxy k ((j, p) ∷ ps) = if text_eq j k then some p else find_proxy k ps

  -- `proxies.values().find(..)`: the first that is not built in.
  unfoldable pub find_global : List (Text × ProxyAdapter S D) → Option (ProxyAdapter S D)
  find_global [] = none
  find_global ((_, p) ∷ ps) =
      if not (text_eq p.name (codes "DIRECT")) && not (text_eq p.name (codes "REJECT"))
      then some p
      else find_global ps

  -- `Tunnel::new`
  unfoldable pub new : List (Text × ProxyAdapter S D) → List Rule → Tunnel S D
  new proxies rules = record {
    proxies = proxies;
    rules = rules;
    mode = rule;
    traffic = new_counter;
    connections = new_tracker;
  }

  unfoldable pub update_proxies : List (Text × ProxyAdapter S D) → Tunnel S D → Tunnel S D
  update_proxies proxies t = record t { proxies = proxies }

  unfoldable pub update_rules : List Rule → Tunnel S D → Tunnel S D
  update_rules rules t = record t { rules = rules }

  unfoldable pub set_mode : Mode → Tunnel S D → Tunnel S D
  set_mode mode t = record t { mode = mode }

  unfoldable pub proxy_names : Tunnel S D → List Text
  proxy_names t = map (λ e. e.0) t.proxies

  unfoldable pub get_proxy : Text → Tunnel S D → Option (ProxyAdapter S D)
  unfolding find_proxy
  get_proxy name t = find_proxy name t.proxies

  unfoldable pub rules_info : Tunnel S D → List (Text × Text × Text)
  rules_info t = map (λ r. (show_rule_type r.rule_type, r.payload, r.adapter)) t.rules

  -- `unwrap_or_else(|| Arc::new(Direct::new()))`
  abbrev pub or_direct : ProxyAdapter S D → Option (ProxyAdapter S D) → ProxyAdapter S D
  or_direct fallback (some p) = p
  or_direct fallback none = fallback

  module _ (fallback : ProxyAdapter S D) where
    -- The answer where no rule applies.
    unfoldable pub default_match : List (Text × ProxyAdapter S D) → MatchResult S D
    unfolding find_proxy
    default_match proxies = record {
      rule_name = codes "MATCH";
      rule_payload = [];
      adapter = or_direct fallback (find_proxy (codes "DIRECT") proxies);
    }

    -- The loop over the rules: the first that matches and whose adapter exists.
    unfoldable pub match_rules :
        List Rule → List (Text × ProxyAdapter S D) → Metadata → MatchResult S D
    unfolding default_match find_proxy
    match_rules [] proxies m = default_match proxies
    match_rules (r ∷ rs) proxies m =
        let rest = match_rules rs proxies m in
        if r.matches m
        then elim (find_proxy r.adapter proxies) [
          | some a ↦ record {
            rule_name = show_rule_type r.rule_type;
            rule_payload = r.payload;
            adapter = a;
          }
          | none ↦ rest
        ]
        else rest

    abbrev match_in : Mode → Tunnel S D → Metadata → MatchResult S D
    match_in direct_mode t m = record {
      rule_name = codes "DIRECT";
      rule_payload = [];
      adapter = or_direct fallback (find_proxy (codes "DIRECT") t.proxies);
    }
    match_in global t m = record {
      rule_name = codes "GLOBAL";
      rule_payload = [];
      adapter = or_direct fallback (find_global t.proxies);
    }
    match_in rule t m = match_rules t.rules t.proxies m

    -- `match_adapter`, with `fallback` for a new `Direct`
    unfoldable pub match_adapter : Tunnel S D → Metadata → MatchResult S D
    unfolding match_rules find_global
    match_adapter t m = match_in t.mode t m
